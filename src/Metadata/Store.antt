-- ===== src/Metadata/Store.antt =====
-- The bolt database as the metadata store that the rest of Virtlet uses.
use virtlet.Prelude.{
  Str, str_eq, str_eq→eq, Bool, true, false, Bool-cases, inl, inr, Option, [], ◌≡◌, ◌≢◌, refl, sym,
  ap, ◌∙◌, arith,
}
use virtlet.Result.{Error, Result, ok, err, fault, errorf}
use virtlet.Types.{ContainerInfo, PodSandboxInfo, StrMap}
use virtlet.MetaStore.{MetaStore, StoreLaws, Updater, with_id}
use virtlet.Metadata.Bolt.{Bolt, BoltLaws, Codec, decode, update, committed}
use virtlet.Metadata.Containers.{containers_bucket, retrieve, save, save_in, list_pod_containers}
use virtlet.Metadata.Sandboxes.{retrieve_sandbox, save_sandbox, list_pod_sandboxes}
use virtlet.Metadata.Links.{record_of}
use virtlet.Metadata.Saved.{Handled, save_in-Handled}

pub differs : (id j : Str) → id ≢ j → str_eq id j ≡ false
differs id j ne = elim (Bool-cases (str_eq id j)) [
  | inl same ↦ absurd (ne (str_eq→eq id j same))
  | inr apart ↦ apart
]

module _ (b : Bolt) where
  open b use {Db}

  -- A transaction that is kept, and one that is not.
  pub committed-ok :
      (r : Result (Unit {0})) (c : Result (Unit {0})) (db t db' : Db)
      → committed b db r c t ≡ (ok tt, db')
      → (r ≡ ok tt) × (t ≡ db')
  committed-ok (ok u) (ok v) db t db' h = (refl, λ i. (h i).1)
  committed-ok (ok u) (err e) db t db' h = let k : err e ≡ ok tt = λ i. (h i).0 in cc
  committed-ok (ok u) (fault e) db t db' h = let k : fault e ≡ ok tt = λ i. (h i).0 in cc
  committed-ok (err e) c db t db' h = let k : err e ≡ ok tt = λ i. (h i).0 in cc
  committed-ok (fault e) c db t db' h = let k : fault e ≡ ok tt = λ i. (h i).0 in cc

  committed-err :
      (r : Result (Unit {0})) (c : Result (Unit {0})) (db t db' : Db) (e : Error)
      → committed b db r c t ≡ (err e, db')
      → db' ≡ db
  committed-err (ok u) (ok v) db t db' e h = let k : ok u ≡ err e = λ i. (h i).0 in cc
  committed-err (ok u) (err e') db t db' e h = sym (λ i. (h i).1)
  committed-err (ok u) (fault e') db t db' e h = sym (λ i. (h i).1)
  committed-err (err e') c db t db' e h = sym (λ i. (h i).1)
  committed-err (fault e') c db t db' e h = sym (λ i. (h i).1)

module _ (b : Bolt) (json : Codec ContainerInfo) where
  open b use {Db}

  save-rolled_back :
      (id : Str) (f : Updater ContainerInfo) (db db' : Db) (e : Error)
      → save b json id f db ≡ (err e, db')
      → db' ≡ db
  unfolding update save
  save-rolled_back id f db db' e h = elim (Bool-cases (str_eq id [])) [
    | inl empty ↦ sym (λ i. ((rw empty at h) i).1)
    | inr given ↦
        let t = save_in b json id f db in
        committed-err b t.0 (b.commit t.1) db t.1 db' e (rw given at h)
  ]

  save-eq-ok :
      (id : Str) (f : Updater ContainerInfo) (db db' : Db)
      → save b json id f db ≡ (ok tt, db')
      → (str_eq id [] ≡ false) × (save_in b json id f db ≡ (ok tt, db'))
  unfolding update save
  save-eq-ok id f db db' h = elim (Bool-cases (str_eq id [])) [
    | inl empty ↦
        let k : err (errorf "Container ID cannot be empty") ≡ ok tt = λ i. ((rw empty at h) i).0 in
        cc
    | inr given ↦
        let t = save_in b json id f db in
        let (r, s) = committed-ok b t.0 (b.commit t.1) db t.1 db' (rw given at h) in
        (given, λ i. (r i, s i))
  ]

module _ (b : Bolt) (laws : BoltLaws b) (json : Codec ContainerInfo) where
  open b use {Db, has_bucket}

  -- Retrieve of a container reads its record, whether or not the bucket is there.
  pub retrieve_lem :
      (id : Str) (db : Db)
      → str_eq id [] ≡ false
      → retrieve b json id db ≡ (decode json (record_of b id db), db)
  unfolding retrieve decode
  retrieve_lem id db given = elim (Bool-cases (has_bucket containers_bucket db)) [
    | inl there ↦ rw (given, there)
    | inr gone ↦ rw (given, gone, laws.get_absent containers_bucket id db gone)
  ]

  pub retrieve_keeps : (id : Str) (db : Db) → (retrieve b json id db).1 ≡ db
  unfolding retrieve
  retrieve_keeps id db = ground arith

  -- The value that Retrieve gives after a successful Save is the handler's result, under its
  -- own ID, the handler having had the stored value; the links of every pod follow the change
  -- of the container's pod, and the record of no other container changes.
  pub save-Handled :
      (id : Str) (f : Updater ContainerInfo) (db db' : Db)
      → save b json id f db ≡ (ok tt, db')
      → Handled b json id f db db'
  save-Handled id f db db' h =
      save_in-Handled b laws json id f db db' ((save-eq-ok b json id f db db' h).1)

  module _ (selector_matches : StrMap → StrMap → Bool) (pods : Codec PodSandboxInfo) where
    -- The database, as the client sees it.
    unfoldable pub bolt_store : MetaStore
    bolt_store = record {
      St = Db;
      retrieve = retrieve b json;
      save = save b json;
      retrieve_sandbox = retrieve_sandbox b pods;
      save_sandbox = save_sandbox b pods;
      list_pod_containers = list_pod_containers b json;
      list_pod_sandboxes = list_pod_sandboxes selector_matches b pods;
    }

    bolt_saved :
        (id : Str) (f : Updater ContainerInfo) (db db' : Db)
        → save b json id f db ≡ (ok tt, db')
        → (old : Option ContainerInfo) × (new : Option ContainerInfo) × ((retrieve b json id db).0
            ≡ ok old)
          × (f old ≡ ok new)
          × ((retrieve b json id db').0 ≡ ok (with_id id new))
    bolt_saved id f db db' h =
        let given = (save-eq-ok b json id f db db' h).0 in
        let done = save-Handled id f db db' h in
        (
          done.old,
          done.new,
          ap (λ r. r.0) (retrieve_lem id db given) ∙ done.was,
          done.gave,
          ap (λ r. r.0) (retrieve_lem id db' given) ∙ done.replaced.is,
        )

    still_empty :
        (j : Str) (db db' : Db)
        → str_eq j [] ≡ true
        → (retrieve b json j db').0 ≡ (retrieve b json j db).0
    unfolding retrieve
    still_empty j db db' empty = rw empty

    bolt_kept :
        (id j : Str) (f : Updater ContainerInfo) (db db' : Db)
        → save b json id f db ≡ (ok tt, db')
        → id ≢ j
        → (retrieve b json j db').0 ≡ (retrieve b json j db).0
    bolt_kept id j f db db' h ne = elim (Bool-cases (str_eq j [])) [
      | inl empty ↦ still_empty j db db' empty
      | inr given ↦
          ap (λ r. r.0) (retrieve_lem j db' given)
          ∙ ap (decode json) ((save-Handled id f db db' h).replaced.others j (differs id j ne))
          ∙ sym (ap (λ r. r.0) (retrieve_lem j db given))
    ]

    -- The database keeps the promises of the interface Store: Retrieve changes nothing; a
    -- successful Save stores the handler's result of the stored value, under its own ID, and
    -- leaves every other container alone; and a Save that fails is rolled back.
    pub bolt_store-StoreLaws : StoreLaws bolt_store
    unfolding bolt_store
    bolt_store-StoreLaws = record {
      pure_retrieve = retrieve_keeps;
      saved = bolt_saved;
      kept = bolt_kept;
      rolled_back = save-rolled_back b json;
    }
