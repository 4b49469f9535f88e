-- ===== src/Metadata/Containers.antt =====
-- containers.go: the records of containers, and the links to them from the buckets of their pods.
use virtlet.Prelude.{
  Str, codes, str_eq, has_prefix, Option, none, some, List, [], ◌∷◌, ◌++◌, drop, length,
  if◌then◌else◌,
}
use virtlet.Result.{ok, err, errorf}
use virtlet.Prog.{Prog, pure, raise, lift, get_state, ◌>>=◌, ◌>>◌}
use virtlet.Types.{ContainerInfo}
use virtlet.MetaStore.{Updater}
use virtlet.Metadata.Bolt.{Bolt, Codec, decode, update}

abbrev pub containers_bucket : Str
containers_bucket = codes "containers"

abbrev pub container_key_prefix : Str
container_key_prefix = codes "containers/"

abbrev pub sandbox_key_prefix : Str
sandbox_key_prefix = codes "sandboxes/"

abbrev pub container_key : Str → Str
container_key id = container_key_prefix ++ id

abbrev pub sandbox_key : Str → Str
sandbox_key id = sandbox_key_prefix ++ id

-- current.Config.PodSandboxID, or "" where there is no record
abbrev pub pod_of : Option ContainerInfo → Str
pod_of none = []
pod_of (some c) = c.config.pod_sandbox_id

-- The keys that a cursor passes while they have the prefix, without it.
unfoldable pub scan : Str → List Str → List Str
scan prefix [] = []
scan prefix (k ∷ ks) =
    let rest = scan prefix ks in if has_prefix k prefix then drop (length prefix) k ∷ rest else []

module _ (b : Bolt) (json : Codec ContainerInfo) where
  open b use {Db, has_bucket, create_bucket_if_not_exists, get, put, delete}

  unfoldable pub retrieve : Str → Prog Db (Option ContainerInfo)
  retrieve id db =
      if str_eq id []
      then (err (errorf "Container ID cannot be empty"), db)
      else if has_bucket containers_bucket db
      then (decode json (get containers_bucket id db), db)
      else (ok none, db)

  unfoldable pub add_container_to_sandbox : Str → Str → Prog Db (Unit {0})
  add_container_to_sandbox container_id sandbox_id = do
    create_bucket_if_not_exists (sandbox_key sandbox_id)
    put (sandbox_key sandbox_id) (container_key container_id) []

  -- A pod whose bucket is gone is passed over.
  unfoldable pub remove_container_from_sandbox : Str → Str → Prog Db (Unit {0})
  remove_container_from_sandbox container_id sandbox_id = do
    db ← get_state
    if has_bucket (sandbox_key sandbox_id) db
        then delete (sandbox_key sandbox_id) (container_key container_id)
        else pure tt

  -- if podID != "" { … }
  abbrev pub unless_empty : Str → Prog Db (Unit {0}) → Prog Db (Unit {0})
  unless_empty pod m = if str_eq pod [] then pure tt else m

  -- The links, where the container moves from one pod to another.
  unfoldable pub relink : Str → Str → Str → Prog Db (Unit {0})
  relink id old new = if str_eq old new then pure tt else (do
    unless_empty old (remove_container_from_sandbox id old)
    unless_empty new (add_container_to_sandbox id new))

  -- The end of Save for a new value.
  unfoldable pub put_record : Str → Option ContainerInfo → ContainerInfo → Prog Db (Unit {0})
  put_record id current new = do
    bytes ← lift (json.marshal (record new { id = id }))
    relink id (pod_of current) (pod_of (some new))
    put containers_bucket id bytes

  -- What Save does with the current value and the handler's.
  unfoldable pub store : Str → Option ContainerInfo → Option ContainerInfo → Prog Db (Unit {0})
  store id none none = pure tt
  store id (some current) none = do
    unless_empty (pod_of (some current)) (remove_container_from_sandbox id (pod_of (some current)))
    delete containers_bucket id
  store id none (some new) = put_record id none new
  store id (some current) (some new) = put_record id (some current) new

  -- The body of the transaction.
  unfoldable pub save_in : Str → Updater ContainerInfo → Prog Db (Unit {0})
  save_in id updater = do
    create_bucket_if_not_exists containers_bucket
    db ← get_state
    current ← lift (decode json (get containers_bucket id db))
    new ← lift (updater current)
    store id current new

  unfoldable pub save : Str → Updater ContainerInfo → Prog Db (Unit {0})
  save id updater =
      if str_eq id []
      then raise (errorf "Container ID cannot be empty")
      else update b (save_in id updater)

  unfoldable pub list_pod_containers : Str → Prog Db (List Str)
  list_pod_containers pod_id db =
      if str_eq pod_id []
      then (err (errorf "Pod sandbox ID cannot be empty"), db)
      else if has_bucket (sandbox_key pod_id) db
      then (
        ok (scan container_key_prefix (b.seek (sandbox_key pod_id) container_key_prefix db)),
        db,
      )
      else (err (errorf "pod sandbox does not exist"), db)

  -- The two loops of ImagesInUse.
  images_of : List Str → Prog Db (List Str)
  images_of [] = pure []
  images_of (id ∷ ids) = do
    ci ← retrieve id
    rest ← (elim ci [
      | none ↦ raise (errorf "containerInfo of container not found in Virtlet metadata store")
      | some c ↦ (do images ← images_of ids; pure (c.config.image ∷ images))
    ])
    pure rest

  images_of_pods : List Str → Prog Db (List Str)
  images_of_pods [] = pure []
  images_of_pods (pod ∷ pods) = do
    containers ← list_pod_containers pod
    images ← images_of containers
    rest ← images_of_pods pods
    pure (images ++ rest)

  -- The set of images, as the list of the names that are set in the map.
  unfoldable pub images_in_use : Prog Db (List Str)
  unfolding images_of images_of_pods
  images_in_use = do
    db ← get_state
    images_of_pods (scan sandbox_key_prefix (b.seek_buckets sandbox_key_prefix db))
