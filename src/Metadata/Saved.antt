-- ===== src/Metadata/Saved.antt =====
-- A successful Save of a container: the handler's result is stored, and the links follow its pod.
use virtlet.Prelude.{
  Str, str_eq, str_eq_refl, Bool, false, ◌&&◌, not, Option, none, some, [], ◌≡◌, sym, ap, ◌∙◌,
  if◌then◌else◌, arith,
}
use virtlet.Result.{Result, ok, err, fault}
use virtlet.Prog.Laws.{stepping}
use virtlet.Types.{ContainerInfo}
use virtlet.MetaStore.{Updater, with_id}
use virtlet.Metadata.Bolt.{Bolt, BoltLaws, Codec, decode}
use virtlet.Metadata.Containers.{
  containers_bucket, container_key, sandbox_key, pod_of, put_record, store, save_in,
}
use virtlet.Metadata.Links.{link, record_of, unlinked, relink-Relinked}
use virtlet.Tool.State.Halves.{lift-parts, get_state-parts}

found : Result ContainerInfo → Result (Option ContainerInfo)
found r = elim r [ ok a ↦ ok (some a) | err e ↦ err e | fault f ↦ fault f ]

-- The link from pod `p` after its container, if this is the one, went from pod `old` to `new`.
abbrev pub moved_link : Bool → Str → Str → Str → Option Str → Option Str
moved_link mine p old new was =
    if mine && not (str_eq old new)
    then (if str_eq new p && not (str_eq new [])
        then some []
        else if str_eq old p && not (str_eq old [])
        then none
        else was)
    else was

module _ (b : Bolt) (json : Codec ContainerInfo) where
  open b use {Db}

  -- The records and the links after the value of container `id` went from `old` to `new`.
  pub record Replaced (id : Str) (old new : Option ContainerInfo) (before after : Db) : Type 0 where
    pub is : decode json (record_of b id after) ≡ ok (with_id id new)
    pub others : (j : Str) → str_eq id j ≡ false → record_of b j after ≡ record_of b j before
    pub links :
        (p j : Str)
        → link b p j after
          ≡ moved_link (str_eq id j) p (pod_of old) (pod_of new) (link b p j before)

  -- The transaction's body: the stored value went through the handler, and the links followed.
  pub record Handled (id : Str) (f : Updater ContainerInfo) (before after : Db) : Type 0 where
    pub old : Option ContainerInfo
    pub new : Option ContainerInfo
    pub was : decode json (record_of b id before) ≡ ok old
    pub gave : f old ≡ ok new
    pub replaced : Replaced id old new before after

module _ (b : Bolt) (laws : BoltLaws b) (json : Codec ContainerInfo) where
  open b use {Db}

  store_nothing :
      (id : Str) (db db' : Db)
      → decode json (record_of b id db) ≡ ok none
      → store b json id none none db ≡ (ok tt, db')
      → Replaced b json id none none db db'
  unfolding store
  store_nothing id db db' was h =
      let same : db ≡ db' = λ i. (h i).1 in
      record {
        is = ap (λ d. decode json (record_of b id d)) (sym same) ∙ was;
        others = λ j ne. ap (record_of b j) (sym same);
        links = λ p j. ap (link b p j) (sym same) ∙ ground (arith, str_eq_refl []);
      }

  store_deleted :
      (id : Str) (current : ContainerInfo) (db db' : Db)
      → store b json id (some current) none db ≡ (ok tt, db')
      → Replaced b json id (some current) none db db'
  unfolding store decode str_eq
  store_deleted id current db db' h = stepping _ _ h λ u t removed deleted.
      let (l, r) = unlinked b laws json id (pod_of (some current)) db t removed in
      let g = laws.get-delete containers_bucket id in
      record {
        is = ap (decode json) (
            g containers_bucket id t db' deleted
            ∙ ap (λ t'. if t' then none else record_of b id t) (str_eq_refl id));
        others = λ j ne. g containers_bucket j t db' deleted ∙ rw ne (r j);
        links =
            λ p j. g (sandbox_key p) (container_key j) t db' deleted ∙ ground (arith, l p j, r j);
      }

  put_record-Replaced :
      (id : Str) (old : Option ContainerInfo) (new : ContainerInfo) (db db' : Db)
      → put_record b json id old new db ≡ (ok tt, db')
      → Replaced b json id old (some new) db db'
  unfolding put_record decode str_eq found
  put_record-Replaced id old new db db' h = stepping _ _ h λ bytes t marshalled h1.
      stepping _ _ h1 λ u t' moved written.
        let (m, same) = lift-parts _ db marshalled in
        let links' = relink-Relinked b laws json id (pod_of old) (pod_of (some new)) t t' moved in
        let g = laws.get-put containers_bucket id bytes in
        record {
          is =
              ap (decode json) (
                g containers_bucket id t' db' written
                ∙ ap (λ e. if e then some bytes else record_of b id t') (str_eq_refl id))
              ∙ ap found (json.unmarshal-marshal _ bytes m);
          others = λ j ne.
              g containers_bucket j t' db' written
              ∙ rw ne (links'.records j ∙ ap (record_of b j) (sym same));
          links = λ p j.
              g (sandbox_key p) (container_key j) t' db' written
              ∙ links'.links p j
              ∙ ap (λ d. moved_link (str_eq id j) p (pod_of old) (pod_of (some new)) (link b p j d))
                  (sym same);
        }

  store-Replaced :
      (id : Str) (old new : Option ContainerInfo) (db db' : Db)
      → decode json (record_of b id db) ≡ ok old
      → store b json id old new db ≡ (ok tt, db')
      → Replaced b json id old new db db'
  unfolding store
  store-Replaced id none none db db' was h = store_nothing id db db' was h
  store-Replaced id (some c) none db db' was h = store_deleted id c db db' h
  store-Replaced id none (some n) db db' was h = put_record-Replaced id none n db db' h
  store-Replaced id (some c) (some n) db db' was h = put_record-Replaced id (some c) n db db' h

  pub save_in-Handled :
      (id : Str) (f : Updater ContainerInfo) (db db' : Db)
      → save_in b json id f db ≡ (ok tt, db')
      → Handled b json id f db db'
  unfolding save_in
  save_in-Handled id f db db' h = stepping _ _ h λ u t created h1. stepping _ _ h1 λ now t1 read h2.
      stepping _ _ h2 λ old t2 decoded h3. stepping _ _ h3 λ new t3 updated stored.
        let (r, r') = get_state-parts t read in
        let (d, d') = lift-parts _ t1 decoded in
        let (g, g') = lift-parts _ t2 updated in
        let start : t3 ≡ t = sym (r' ∙ d' ∙ g') in
        let had : decode json (record_of b id t) ≡ ok old =
          ap (λ z. decode json (record_of b id z)) r ∙ d in
        let keep = laws.get-create containers_bucket in
        let step =
          store-Replaced id old new t db' had (ap (store b json id old new) (sym start) ∙ stored) in
        record {
          old = old;
          new = new;
          was = ap (decode json) (sym (keep containers_bucket id db t created)) ∙ had;
          gave = g;
          replaced = record {
            is = step.is;
            others = λ j ne. step.others j ne ∙ keep containers_bucket j db t created;
            links = λ p j.
                step.links p j
                ∙ ap (moved_link (str_eq id j) p (pod_of old) (pod_of new))
                    (keep (sandbox_key p) (container_key j) db t created);
          };
        }
