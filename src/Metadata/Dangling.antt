-- ===== src/Metadata/Dangling.antt =====
-- The links from pods to containers and the records they point to.
use virtlet.Prelude.{
  Str, str_eq, str_eq_refl, str_eq→eq, true, false, Bool-cases, inl, inr, ◌&&◌, not, Option, none,
  some, [], ◌≡◌, ◌≢◌, sym, ap, ◌∙◌, arith,
}
use mathlib.Core.Path.{subst}
use virtlet.Result.{Result, ok, err, fault}
use virtlet.Types.{ContainerInfo}
use virtlet.MetaStore.{Updater, with_id}
use virtlet.Metadata.Bolt.{Bolt, BoltLaws, Codec, decode}
use virtlet.Metadata.Containers.{pod_of, save}
use virtlet.Metadata.Links.{link, record_of}
use virtlet.Metadata.Saved.{Replaced, moved_link}
use virtlet.Metadata.Store.{save-Handled}

own_pod :
    (p old : Str) → str_eq p [] ≡ false → old ≡ p → str_eq old p && not (str_eq old []) ≢ false
own_pod p old given is wrong =
    let same : str_eq old p ≡ true = ap (str_eq old) (sym is) ∙ str_eq_refl old in
    let full : str_eq old [] ≡ false = ap (λ q. str_eq q []) is ∙ given in ground arith

-- A link from `p` that is there once the container went to a value of pod `new`.
moved-Named :
    (p old new : Str) (was : Option Str)
    → (was ≢ none → (str_eq p [] ≡ false) × (old ≡ p))
    → moved_link true p old new was ≢ none
    → (str_eq p [] ≡ false) × (new ≡ p)
moved-Named p old new was before there = elim (Bool-cases (str_eq old new)) [
  | inl same ↦
      let (given, is) = before (λ gone. there (rw same gone)) in
      (given, sym (str_eq→eq old new same) ∙ is)
  | inr moved ↦ elim (Bool-cases (str_eq new p && not (str_eq new []))) [
    | inl to ↦
        let is = str_eq→eq new p (ground arith) in
        (ap (λ q. str_eq q []) (sym is) ∙ ground arith, is)
    | inr not_to ↦ elim (Bool-cases (str_eq old p && not (str_eq old []))) [
      | inl from ↦ absurd (there (rw (moved, not_to, from)))
      | inr not_from ↦
          let (given, is) = before (λ gone. there (rw (moved, not_to, not_from) gone)) in
          absurd (own_pod p old given is not_from)
    ]
  ]
]

module _ (b : Bolt) (json : Codec ContainerInfo) where
  open b use {Db}

  -- A pod's link leads to a record, and the record names the pod.
  abbrev pub LinkIsSound : Db → Str → Str → Type 0
  LinkIsSound db p j =
      link b p j db ≢ none
      → (str_eq p [] ≡ false)
        × (c : ContainerInfo) × (decode json (record_of b j db) ≡ ok (some c))
        × (c.config.pod_sandbox_id ≡ p)

  unfoldable pub NoDangling : Db → Type 0
  NoDangling db = (p j : Str) → LinkIsSound db p j

  named :
      (p id : Str) (o : Option ContainerInfo) (r : Result (Option ContainerInfo))
      → r ≡ ok (with_id id o)
      → str_eq p [] ≡ false
      → pod_of o ≡ p
      → (c : ContainerInfo) × (r ≡ ok (some c)) × (c.config.pod_sandbox_id ≡ p)
  unfolding str_eq
  named p id none r is given pod =
      let empty : str_eq p [] ≡ true = ap (λ q. str_eq q []) (sym pod) in absurd (ground arith)
  named p id (some c) r is given pod = (record c { id = id }, is, pod)

  had-Named :
      (p id : Str) (o : Option ContainerInfo) (db : Db)
      → NoDangling db
      → decode json (record_of b id db) ≡ ok o
      → link b p id db ≢ none
      → (str_eq p [] ≡ false) × (pod_of o ≡ p)
  unfolding NoDangling
  had-Named p id o db safe was there =
      let (given, c, read, pod) = safe p id there in
      (
        given,
        ap (λ r. elim r [ ok q ↦ pod_of q | err e ↦ [] | fault f ↦ [] ]) (sym was ∙ read) ∙ pod,
      )

  own-IsSound :
      (p id : Str) (old new : Option ContainerInfo) (db db' : Db)
      → decode json (record_of b id db) ≡ ok old
      → Replaced b json id old new db db'
      → NoDangling db
      → LinkIsSound db' p id
  own-IsSound p id old new db db' was step safe there =
      let l : link b p id db' ≡ moved_link true p (pod_of old) (pod_of new) (link b p id db) =
        step.links p id
        ∙ ap (λ t. moved_link t p (pod_of old) (pod_of new) (link b p id db)) (str_eq_refl id) in
      let (given, pod) =
        moved-Named p (pod_of old) (pod_of new) (link b p id db) (had-Named p id old db safe was)
          (λ gone. there (l ∙ gone)) in
      let (c, read, at) = named p id new _ step.is given pod in (given, c, read, at)

  Replaced-NoDangling :
      (id : Str) (old new : Option ContainerInfo) (db db' : Db)
      → decode json (record_of b id db) ≡ ok old
      → Replaced b json id old new db db'
      → NoDangling db
      → NoDangling db'
  unfolding NoDangling
  Replaced-NoDangling id old new db db' was step safe p j there = elim (Bool-cases (str_eq id j)) [
    | inl same ↦
        subst (LinkIsSound db' p) (str_eq→eq id j same)
          (own-IsSound p id old new db db' was step safe) there
    | inr apart ↦
        let (given, c, read, pod) = safe p j (λ gone. there (step.links p j ∙ rw apart gone)) in
        (given, c, ap (decode json) (step.others j apart) ∙ read, pod)
  ]

module _ (b : Bolt) (laws : BoltLaws b) (json : Codec ContainerInfo) where
  -- A successful Save of a container, whatever its handler, keeps every link from a pod leading
  -- to a stored record that names this very pod.
  pub save-NoDangling :
      (id : Str) (f : Updater ContainerInfo) (db db' : b.Db)
      → NoDangling b json db
      → save b json id f db ≡ (ok tt, db')
      → NoDangling b json db'
  save-NoDangling id f db db' safe h =
      let done = save-Handled b laws json id f db db' h in
      Replaced-NoDangling b json id done.old done.new db db' done.was done.replaced safe
