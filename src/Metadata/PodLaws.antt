-- ===== src/Metadata/PodLaws.antt =====
-- sandboxes.go: the sandboxes in the database keep the promises of the interface Store.
use virtlet.Prelude.{
  Str, str_eq, Bool, Bool-cases, true, false, inl, inr, Option, [], ◌≡◌, ◌≢◌, sym, ap, ◌∙◌,
}
use virtlet.Result.{Result, ok, err, fault, errorf, known, succeeded}
use virtlet.Types.{ContainerInfo, PodSandboxInfo, StrMap}
use virtlet.MetaStore.{SandboxLaws, Updater, with_pod}
use virtlet.Metadata.Bolt.{Bolt, BoltLaws, Codec, decode, update, committed}
use virtlet.Metadata.Sandboxes.{retrieve_sandbox, save_sandbox, save_sandbox_in}
use virtlet.Metadata.Store.{bolt_store, committed-ok, differs}
use virtlet.Metadata.Pods.{
  Updated, retrieve_sandbox_lem, retrieve_sandbox-empty, retrieve_sandbox_keeps,
  save_sandbox_in-Updated,
}

module _ (b : Bolt) where
  open b use {Db}

  committed-failed :
      (r c : Result (Unit {0})) (q : Result (Unit {0})) (db t db' : Db)
      → committed b db r c t ≡ (q, db')
      → succeeded q ≡ false
      → db' ≡ db
  committed-failed (ok u) (ok v) q db t db' h failed =
      let e : ok u ≡ q = λ i. (h i).0 in
      let clash : true ≡ false = ap succeeded e ∙ failed in absurd (cc)
  committed-failed (ok u) (err e') q db t db' h failed = sym (λ i. (h i).1)
  committed-failed (ok u) (fault e') q db t db' h failed = sym (λ i. (h i).1)
  committed-failed (err e') c q db t db' h failed = sym (λ i. (h i).1)
  committed-failed (fault e') c q db t db' h failed = sym (λ i. (h i).1)

module _ (b : Bolt) (laws : BoltLaws b) (json : Codec PodSandboxInfo) where
  open b use {Db, get}

  save_sandbox-failed :
      (id : Str) (f : Updater PodSandboxInfo) (db db' : Db) (q : Result (Unit {0}))
      → save_sandbox b json id f db ≡ (q, db')
      → succeeded q ≡ false
      → db' ≡ db
  unfolding save_sandbox update
  save_sandbox-failed id f db db' q h failed = elim (Bool-cases (str_eq id [])) [
    | inl empty ↦ sym (λ i. ((rw empty at h) i).1)
    | inr given ↦
        let t = save_sandbox_in b json id f db in
        committed-failed b t.0 (b.commit t.1) q db t.1 db' (rw given at h) failed
  ]

  save_sandbox-Updated :
      (id : Str) (f : Updater PodSandboxInfo) (db db' : Db)
      → save_sandbox b json id f db ≡ (ok tt, db')
      → (str_eq id [] ≡ false) × Updated b laws json id f db db'
  unfolding save_sandbox update
  save_sandbox-Updated id f db db' h = elim (Bool-cases (str_eq id [])) [
    | inl empty ↦
        let k : err (errorf "Pod sandbox ID cannot be empty") ≡ ok tt =
          λ i. ((rw empty at h) i).0 in
        absurd (cc)
    | inr given ↦
        let t = save_sandbox_in b json id f db in
        let (r, s) = committed-ok b t.0 (b.commit t.1) db t.1 db' (rw given at h) in
        (given, save_sandbox_in-Updated b laws json id f db db' (λ i. (r i, s i)))
  ]

  abbrev pod_of : Str → Db → Option PodSandboxInfo
  pod_of id db = known (retrieve_sandbox b json id db).0

  sandbox_saved :
      (id : Str) (f : Updater PodSandboxInfo) (db db' : Db)
      → save_sandbox b json id f db ≡ (ok tt, db')
      → (old : Option PodSandboxInfo) × (new : Option PodSandboxInfo) × (pod_of id db
          ≡ with_pod id old)
        × (f old ≡ ok new)
        × (pod_of id db' ≡ with_pod id new)
  sandbox_saved id f db db' h =
      let (given, u) = save_sandbox-Updated id f db db' h in
      (
        u.old,
        u.new,
        retrieve_sandbox_lem b laws json id db given
            ∙ ap (λ (r : Result (Option PodSandboxInfo)). with_pod id (known r)) u.was,
        u.gave,
        retrieve_sandbox_lem b laws json id db' given
            ∙ ap (λ (r : Result (Option PodSandboxInfo)). with_pod id (known r)) u.stored.is,
      )

  sandbox_kept :
      (id j : Str) (f : Updater PodSandboxInfo) (db db' : Db)
      → save_sandbox b json id f db ≡ (ok tt, db')
      → id ≢ j
      → pod_of j db' ≡ pod_of j db
  sandbox_kept id j f db db' h ne = elim (Bool-cases (str_eq j [])) [
    | inl empty ↦
        retrieve_sandbox-empty b laws json j db' empty
        ∙ sym (retrieve_sandbox-empty b laws json j db empty)
    | inr given ↦
        retrieve_sandbox_lem b laws json j db' given
        ∙ ap (λ d. with_pod j (known (decode json d)))
            ((save_sandbox-Updated id f db db' h).1.stored.others j (differs id j ne))
        ∙ sym (retrieve_sandbox_lem b laws json j db given)
  ]

module _ (b : Bolt) (laws : BoltLaws b) (json : Codec ContainerInfo) where
  module _ (selector_matches : StrMap → StrMap → Bool) (pods : Codec PodSandboxInfo) where
    -- The database keeps the promises about the sandboxes too: Retrieve changes nothing; a
    -- successful Save stores the handler's result of the stored value under the pod's ID, nil
    -- removing it, and leaves every other pod alone; and a Save that fails is rolled back.
    pub bolt_store-SandboxLaws : SandboxLaws (bolt_store b laws json selector_matches pods)
    unfolding bolt_store
    bolt_store-SandboxLaws = record {
      pure_retrieve_sandbox = retrieve_sandbox_keeps b laws pods;
      saved_sandbox = sandbox_saved b laws pods;
      kept_sandbox = sandbox_kept b laws pods;
      rolled_back_sandbox = λ id f s s' r. save_sandbox-failed b laws pods id f s s' r;
    }
