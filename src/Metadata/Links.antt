-- ===== src/Metadata/Links.antt =====
-- What a successful Save of a container has done to the records and the links.
use virtlet.Prelude.{
  Str, str_eq, str_eq→eq, false, Bool-cases, inl, inr, ◌&&◌, not, ◌⊎◌, Option, none, some, [], ◌≡◌,
  sym, ap, ◌∙◌, if◌then◌else◌, arith,
}
use virtlet.Result.{ok}
use virtlet.Prog.Laws.{stepping}
use virtlet.Types.{ContainerInfo}
use virtlet.Metadata.Bolt.{Bolt, BoltLaws, Codec}
use virtlet.Metadata.Containers.{
  containers_bucket, container_key, sandbox_key, add_container_to_sandbox,
  remove_container_from_sandbox, unless_empty, relink,
}
use virtlet.Tool.State.Halves.{get_state-parts}

module _ (b : Bolt) where
  open b use {Db, get}

  -- The link from pod `p` to container `j`, and the stored record of container `j`.
  abbrev pub link : Str → Str → Db → Option Str
  link p j db = get (sandbox_key p) (container_key j) db

  abbrev pub record_of : Str → Db → Option Str
  record_of j db = get containers_bucket j db

  -- What relinking does: the old link is gone, the new one is there, no record is touched.
  pub record Relinked (id old new : Str) (before after : Db) : Type 0 where
    pub links :
        (p j : Str)
        → link p j after ≡ (
            if str_eq id j && not (str_eq old new)
            then (if str_eq new p && not (str_eq new [])
                then some []
                else if str_eq old p && not (str_eq old [])
                then none
                else link p j before)
            else link p j before)
    pub records : (j : Str) → record_of j after ≡ record_of j before

module _ (b : Bolt) (laws : BoltLaws b) (json : Codec ContainerInfo) where
  open b use {Db, has_bucket}

  -- Either the pod's bucket was gone and nothing happened, or the link was deleted from it.
  removal :
      (id pod : Str) (db db' : Db)
      → remove_container_from_sandbox b json id pod db ≡ (ok tt, db')
      → ((has_bucket (sandbox_key pod) db ≡ false) × (db ≡ db'))
        ⊎ (b.delete (sandbox_key pod) (container_key id) db ≡ (ok tt, db'))
  unfolding remove_container_from_sandbox
  removal id pod db db' h = stepping _ _ h λ now t read h1.
      let (e, f) = get_state-parts db read in
      elim (Bool-cases (has_bucket (sandbox_key pod) now)) [
        | inl there ↦ inr (ap (b.delete (sandbox_key pod) (container_key id)) f ∙ (rw there at h1))
        | inr gone ↦
            inl (ap (has_bucket (sandbox_key pod)) e ∙ gone, f ∙ (λ i. ((rw gone at h1) i).1))
      ]

  absent-link :
      (id pod p j : Str) (db : Db)
      → has_bucket (sandbox_key pod) db ≡ false
      → link b p j db ≡ (if str_eq pod p && str_eq id j then none else link b p j db)
  absent-link id pod p j db gone = elim (Bool-cases (str_eq pod p)) [
    | inr other ↦ rw other
    | inl same ↦
        let none_there : link b p j db ≡ none =
          laws.get_absent (sandbox_key p) (container_key j) db
            (ap (λ q. has_bucket (sandbox_key q) db) (sym (str_eq→eq pod p same)) ∙ gone) in
        ground arith
  ]

  remove-link :
      (id pod p j : Str) (db db' : Db)
      → remove_container_from_sandbox b json id pod db ≡ (ok tt, db')
      → link b p j db' ≡ (if str_eq pod p && str_eq id j then none else link b p j db)
  unfolding str_eq
  remove-link id pod p j db db' h = elim (removal id pod db db' h) [
    | inl gone ↦ ap (link b p j) (sym gone.1) ∙ absent-link id pod p j db gone.0
    | inr deleted ↦
        laws.get-delete (sandbox_key pod) (container_key id) (sandbox_key p) (container_key j) db
          db' deleted
  ]

  remove-record :
      (id pod j : Str) (db db' : Db)
      → remove_container_from_sandbox b json id pod db ≡ (ok tt, db')
      → record_of b j db' ≡ record_of b j db
  unfolding str_eq
  remove-record id pod j db db' h = elim (removal id pod db db' h) [
    | inl gone ↦ ap (record_of b j) (sym gone.1)
    | inr deleted ↦
        laws.get-delete (sandbox_key pod) (container_key id) containers_bucket j db db' deleted
  ]

  add-link :
      (id pod p j : Str) (db db' : Db)
      → add_container_to_sandbox b json id pod db ≡ (ok tt, db')
      → link b p j db' ≡ (if str_eq pod p && str_eq id j then some [] else link b p j db)
  unfolding add_container_to_sandbox str_eq
  add-link id pod p j db db' h = stepping _ _ h λ u t created put'.
      let e =
        laws.get-put (sandbox_key pod) (container_key id) [] (sandbox_key p) (container_key j) t db'
          put' in
      let f = laws.get-create (sandbox_key pod) (sandbox_key p) (container_key j) db t created in
      e ∙ ap (λ o. if str_eq pod p && str_eq id j then some [] else o) f

  add-record :
      (id pod j : Str) (db db' : Db)
      → add_container_to_sandbox b json id pod db ≡ (ok tt, db')
      → record_of b j db' ≡ record_of b j db
  unfolding add_container_to_sandbox str_eq
  add-record id pod j db db' h = stepping _ _ h λ u t created put'.
      laws.get-put (sandbox_key pod) (container_key id) [] containers_bucket j t db' put'
      ∙ laws.get-create (sandbox_key pod) containers_bucket j db t created

  pub unlinked :
      (id old : Str) (db db' : Db)
      → unless_empty b json old (remove_container_from_sandbox b json id old) db ≡ (ok tt, db')
      → ((p j : Str)
          → link b p j db' ≡ (
              if str_eq id j && (str_eq old p && not (str_eq old [])) then none else link b p j db))
        × ((j : Str) → record_of b j db' ≡ record_of b j db)
  unlinked id old db db' h = elim (Bool-cases (str_eq old [])) [
    | inl e ↦
        let same : db ≡ db' = λ i. ((rw e at h) i).1 in
        ((λ p j. ap (link b p j) (sym same) ∙ ground arith), (λ j. ap (record_of b j) (sym same)))
    | inr n ↦
        let r = rw n at h in
        (
          (λ p j. remove-link id old p j db db' r ∙ ground arith),
          (λ j. remove-record id old j db db' r),
        )
  ]

  pub linked :
      (id new : Str) (db db' : Db)
      → unless_empty b json new (add_container_to_sandbox b json id new) db ≡ (ok tt, db')
      → ((p j : Str)
          → link b p j db' ≡ (
              if str_eq id j && (str_eq new p && not (str_eq new []))
              then some []
              else link b p j db))
        × ((j : Str) → record_of b j db' ≡ record_of b j db)
  linked id new db db' h = elim (Bool-cases (str_eq new [])) [
    | inl e ↦
        let same : db ≡ db' = λ i. ((rw e at h) i).1 in
        ((λ p j. ap (link b p j) (sym same) ∙ ground arith), (λ j. ap (record_of b j) (sym same)))
    | inr n ↦
        let r = rw n at h in
        ((λ p j. add-link id new p j db db' r ∙ ground arith), (λ j. add-record id new j db db' r))
  ]

  pub relink-Relinked :
      (id old new : Str) (db db' : Db)
      → relink b json id old new db ≡ (ok tt, db')
      → Relinked b id old new db db'
  unfolding relink
  relink-Relinked id old new db db' h = elim (Bool-cases (str_eq old new)) [
    | inl e ↦
        let same : db ≡ db' = λ i. ((rw e at h) i).1 in
        record {
          links = λ p j. ap (link b p j) (sym same) ∙ ground arith;
          records = λ j. ap (record_of b j) (sym same);
        }
    | inr n ↦ stepping _ _ (rw n at h) λ u t removed added.
        let (l, r) = unlinked id old db t removed in
        let (l', r') = linked id new t db' added in
        record { links = λ p j. l' p j ∙ ground (arith, l p j); records = λ j. r' j ∙ r j }
  ]
