-- ===== src/Metadata/Sandboxes.antt =====
-- sandboxes.go: the records of pod sandboxes, each in a bucket of its own.
use virtlet.Prelude.{
  Str, codes, str_eq, Bool, true, false, not, ◌&&◌, Option, none, some, List, [], ◌∷◌,
  if◌then◌else◌,
}
use virtlet.Result.{Result, ok, err, fault, errorf}
use virtlet.Prog.{Prog, pure, raise, lift, get_state, ◌>>=◌, ◌>>◌}
use virtlet.Types.{PodSandboxInfo, PodSandboxState, ready, not_ready, PodSandboxFilter, StrMap}
use virtlet.MetaStore.{Updater}
use virtlet.Metadata.Bolt.{Bolt, Codec, decode, update}
use virtlet.Metadata.Containers.{sandbox_key, sandbox_key_prefix, scan}

abbrev pub sandbox_data_bucket : Str
sandbox_data_bucket = codes "data"

unfoldable pub with_pod_id : Str → Result (Option PodSandboxInfo) → Result (Option PodSandboxInfo)
with_pod_id id (ok (some s)) = ok (some (record s { pod_id = id }))
with_pod_id id (ok none) = ok none
with_pod_id id (err e) = err e
with_pod_id id (fault f) = fault f

same_sandbox_state : PodSandboxState → PodSandboxState → Bool
same_sandbox_state ready ready = true
same_sandbox_state not_ready not_ready = true
same_sandbox_state _ _ = false

wants_state : Option PodSandboxState → PodSandboxState → Bool
wants_state none st = true
wants_state (some wanted) st = same_sandbox_state st wanted

module _ (b : Bolt) (json : Codec PodSandboxInfo) where
  open b use {Db, has_bucket, create_bucket_if_not_exists, delete_bucket, get, put}

  unfoldable pub retrieve_sandbox : Str → Prog Db (Option PodSandboxInfo)
  unfolding with_pod_id
  retrieve_sandbox id db =
      if str_eq id []
      then (err (errorf "Pod sandbox ID cannot be empty"), db)
      else if has_bucket (sandbox_key id) db
      then (with_pod_id id (decode json (get (sandbox_key id) sandbox_data_bucket db)), db)
      else (err (errorf "pod sandbox does not exist"), db)

  unfoldable pub store_sandbox : Str → Option PodSandboxInfo → Prog Db (Unit {0})
  store_sandbox id none = delete_bucket (sandbox_key id)
  store_sandbox id (some new) = do
    bytes ← lift (json.marshal new)
    put (sandbox_key id) sandbox_data_bucket bytes

  unfoldable pub save_sandbox_in : Str → Updater PodSandboxInfo → Prog Db (Unit {0})
  save_sandbox_in id updater = do
    create_bucket_if_not_exists (sandbox_key id)
    db ← get_state
    current ← lift (decode json (get (sandbox_key id) sandbox_data_bucket db))
    new ← lift (updater current)
    store_sandbox id new

  unfoldable pub save_sandbox : Str → Updater PodSandboxInfo → Prog Db (Unit {0})
  save_sandbox id updater =
      if str_eq id []
      then raise (errorf "Pod sandbox ID cannot be empty")
      else update b (save_sandbox_in id updater)

module _ (selector_matches : StrMap → StrMap → Bool) (b : Bolt) (json : Codec PodSandboxInfo) where
  open b use {Db}

  filter_info : PodSandboxFilter → Option PodSandboxInfo → Result Bool
  filter_info f none = err (errorf "no data found for pod id")
  filter_info f (some psi) =
      if not (wants_state f.state psi.state)
      then ok false
      else ok (selector_matches f.label_selector psi.config.labels)

  filter_pod_sandbox_meta : Option PodSandboxFilter → Str → Prog Db Bool
  filter_pod_sandbox_meta none id = pure true
  filter_pod_sandbox_meta (some f) id =
      if not (str_eq f.id []) && not (str_eq id f.id)
      then pure false
      else (do psi ← retrieve_sandbox b json id; lift (filter_info f psi))

  filter_each : Option PodSandboxFilter → List Str → Prog Db (List Str)
  filter_each f [] = pure []
  filter_each f (id ∷ ids) = do
    passed ← filter_pod_sandbox_meta f id
    rest ← filter_each f ids
    pure (if passed then id ∷ rest else rest)

  unfoldable pub list_pod_sandboxes : Option PodSandboxFilter → Prog Db (List Str)
  unfolding filter_each filter_pod_sandbox_meta filter_info wants_state same_sandbox_state
  list_pod_sandboxes f = do
    db ← get_state
    filter_each f (scan sandbox_key_prefix (b.seek_buckets sandbox_key_prefix db))
