-- ===== src/Metadata/Pods.antt =====
-- sandboxes.go: the sandboxes in the database keep the promises of the interface Store.
use virtlet.Prelude.{
  Str, str_eq, str_eq_refl, Bool-cases, true, false, inl, inr, ◌&&◌, Option, none, some, [], ◌≡◌,
  refl, sym, ap, ◌∙◌, if◌then◌else◌, arith,
}
use virtlet.Result.{Result, ok, err, fault, known}
use virtlet.Prog.Laws.{stepping}
use virtlet.Types.{PodSandboxInfo}
use virtlet.MetaStore.{Updater, with_pod}
use virtlet.Metadata.Bolt.{Bolt, BoltLaws, Codec, decode}
use virtlet.Metadata.Containers.{sandbox_key}
use virtlet.Metadata.Sandboxes.{
  retrieve_sandbox, save_sandbox_in, sandbox_data_bucket, store_sandbox, with_pod_id,
}
use virtlet.Tool.State.Halves.{get_state-parts, lift-parts}

known-with_pod_id :
    (id : Str) (r : Result (Option PodSandboxInfo))
    → known (with_pod_id id r) ≡ with_pod id (known r)
unfolding with_pod_id
known-with_pod_id id (ok (some s)) = refl
known-with_pod_id id (ok none) = refl
known-with_pod_id id (err e) = refl
known-with_pod_id id (fault f) = refl

module _ (b : Bolt) (laws : BoltLaws b) (json : Codec PodSandboxInfo) where
  open b use {Db, has_bucket, get}

  abbrev pub stored_pod : Str → Db → Result (Option PodSandboxInfo)
  stored_pod id db = decode json (get (sandbox_key id) sandbox_data_bucket db)

  -- Whether or not the bucket is there.
  pub retrieve_sandbox_lem :
      (id : Str) (db : Db)
      → str_eq id [] ≡ false
      → known (retrieve_sandbox b json id db).0 ≡ with_pod id (known (stored_pod id db))
  unfolding retrieve_sandbox decode
  retrieve_sandbox_lem id db given = elim (Bool-cases (has_bucket (sandbox_key id) db)) [
    | inl there ↦ rw (given, there) (known-with_pod_id id (stored_pod id db))
    | inr gone ↦ rw (given, gone, laws.get_absent (sandbox_key id) sandbox_data_bucket db gone)
  ]

  pub retrieve_sandbox-empty :
      (id : Str) (db : Db) → str_eq id [] ≡ true → known (retrieve_sandbox b json id db).0 ≡ none
  unfolding retrieve_sandbox
  retrieve_sandbox-empty id db empty = rw empty

  pub retrieve_sandbox_keeps : (id : Str) (db : Db) → (retrieve_sandbox b json id db).1 ≡ db
  unfolding retrieve_sandbox
  retrieve_sandbox_keeps id db = ground arith

  -- The data in the bucket of pod `j` after the value of pod `id` became `new`.
  pub record Stored (id : Str) (new : Option PodSandboxInfo) (before after : Db) : Type 0 where
    pub is : stored_pod id after ≡ ok new
    pub others :
        (j : Str)
        → str_eq id j ≡ false
        → get (sandbox_key j) sandbox_data_bucket after
          ≡ get (sandbox_key j) sandbox_data_bucket before

  store_sandbox-Stored :
      (id : Str) (new : Option PodSandboxInfo) (db db' : Db)
      → store_sandbox b json id new db ≡ (ok tt, db')
      → Stored id new db db'
  unfolding store_sandbox decode str_eq
  store_sandbox-Stored id none db db' h =
      let g = laws.get-delete_bucket (sandbox_key id) in
      record {
        is = ap (decode json) (
            g (sandbox_key id) sandbox_data_bucket db db' h
            ∙ ap (λ t. if t then none else get (sandbox_key id) sandbox_data_bucket db)
                (str_eq_refl id));
        others = λ j ne. g (sandbox_key j) sandbox_data_bucket db db' h ∙ rw ne;
      }
  store_sandbox-Stored id (some p) db db' h = stepping _ _ h λ bytes t marshalled written.
      let (r, same) = lift-parts _ db marshalled in
      let g = laws.get-put (sandbox_key id) sandbox_data_bucket bytes in
      record {
        is =
            ap (decode json) (
              g (sandbox_key id) sandbox_data_bucket t db' written
              ∙ ap
                  (λ e.
                    if e && true then some bytes else get (sandbox_key id) sandbox_data_bucket t)
                  (str_eq_refl id))
            ∙ rw (json.unmarshal-marshal p bytes r);
        others = λ j ne.
            g (sandbox_key j) sandbox_data_bucket t db' written
            ∙ rw ne (ap (get (sandbox_key j) sandbox_data_bucket) (sym same));
      }

  -- The body of the transaction: the stored value went through the handler.
  pub record Updated (id : Str) (f : Updater PodSandboxInfo) (before after : Db) : Type 0 where
    pub old : Option PodSandboxInfo
    pub new : Option PodSandboxInfo
    pub was : stored_pod id before ≡ ok old
    pub gave : f old ≡ ok new
    pub stored : Stored id new before after

  pub save_sandbox_in-Updated :
      (id : Str) (f : Updater PodSandboxInfo) (db db' : Db)
      → save_sandbox_in b json id f db ≡ (ok tt, db')
      → Updated id f db db'
  unfolding save_sandbox_in
  save_sandbox_in-Updated id f db db' h = stepping _ _ h λ u t created h1.
      stepping _ _ h1 λ now t1 read h2. stepping _ _ h2 λ old t2 decoded h3.
        stepping _ _ h3 λ new t3 updated done.
          let (r, r') = get_state-parts t read in
          let (d, d') = lift-parts _ t1 decoded in
          let (g, g') = lift-parts _ t2 updated in
          let keep = λ (j : Str).
            laws.get-create (sandbox_key id) (sandbox_key j) sandbox_data_bucket db t created in
          let start : t3 ≡ t = sym (r' ∙ d' ∙ g') in
          let had : stored_pod id t ≡ ok old = ap (stored_pod id) r ∙ d in
          let step =
            store_sandbox-Stored id new t db'
              (ap (store_sandbox b json id new) (sym start) ∙ done) in
          record {
            old = old;
            new = new;
            was = ap (decode json) (sym (keep id)) ∙ had;
            gave = g;
            stored = record { is = step.is; others = λ j ne. step.others j ne ∙ keep j };
          }
