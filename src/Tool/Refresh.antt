-- ===== src/Tool/Refresh.antt =====
-- What ContainerInfo does to the record of a container.
use mathlib.Core.Path.{subst}
use virtlet.Prelude.{Str, ◌≡◌, ◌≢◌, inl, inr, sym, ◌∙◌, ap, true, Bool-cases, Option, none, some}
use virtlet.Result.{ok, ok_injective}
use virtlet.Prog.{pure}
use virtlet.Prog.Laws.{stepping}
use virtlet.Types.{ContainerInfo, ContainerState}
use virtlet.Types.Domain.{DomainState}
use virtlet.World.{World}
use virtlet.MetaStore.{MetaStore, StoreLaws, with_id}
use virtlet.Tool.State.{Sys, on_world, on_meta}
use virtlet.Tool.State.Halves.{on_world-parts, on_meta-parts}
use virtlet.Tool.Lifecycle.{set_state}
use virtlet.Tool.Reports.{same_state→eq}
use virtlet.Tool.Query.{virt_to_kube_state, same_state, container_info, refresh, refresh_known}

module _ (x : World) (m : MetaStore) where
  open x use {W, Domain}
  open m use {St, retrieve}

  -- What a successful ContainerInfo has done with the record `old` that it found: libvirt's state
  -- was asked for last, the result has the state that it implies, the store holds that state too,
  -- and the other records are as before.
  pub record Refreshed (id : Str) (domain : Domain) (old : ContainerInfo) (before after : St)
      (end : W) (c : ContainerInfo) : Type 0 where
    pub last_seen : W
    pub domain_state : DomainState
    pub seen : x.state domain last_seen ≡ (ok domain_state, end)
    pub result : c ≡ record old { state = virt_to_kube_state domain_state old.state }
    pub stored : ContainerInfo
    pub is : (retrieve id after).0 ≡ ok (some stored)
    pub agrees : stored.state ≡ c.state
    pub others : (j : Str) → id ≢ j → (retrieve j after).0 ≡ (retrieve j before).0

  some_eq : {a b : ContainerInfo} {s t : Sys W St} → pure (some a) s ≡ (ok (some b), t) → a ≡ b
  some_eq {a} {b} h = let inner : some a ≡ some b = ok_injective (λ i. (h i).0) in cc

  Refreshed-same :
      (id : Str) (d : Domain) (old : ContainerInfo) (st : DomainState) (s t s' : Sys W St)
      (c : ContainerInfo)
      → (retrieve id s.meta).0 ≡ ok (some old)
      → on_world (x.state d) s ≡ (ok st, t)
      → same_state old.state (virt_to_kube_state st old.state) ≡ true
      → pure (some old) t ≡ (ok (some c), s')
      → Refreshed id d old s.meta s'.meta s'.world c
  Refreshed-same id d old st s t s' c was asked same h =
      let (seen, kept) = on_world-parts (x.state d) s asked in
      let metas : s.meta ≡ s'.meta = kept ∙ (λ i. (h i).1.meta) in
      record {
        last_seen = s.world;
        domain_state = st;
        seen = seen ∙ (λ i. (ok st, (h i).1.world));
        result = sym (some_eq h) ∙ (λ i. record old { state = same_state→eq old.state _ same i });
        stored = old;
        is = (λ i. (retrieve id (sym metas i)).0) ∙ was;
        agrees = λ i. (some_eq h i).state;
        others = λ j ne i. (retrieve j (sym metas i)).0;
      }

  saved_state :
      StoreLaws m
      → (id : Str) (old : ContainerInfo) (new : ContainerState) (before after : St)
      → (retrieve id before).0 ≡ ok (some old)
      → m.save id (set_state new) before ≡ (ok tt, after)
      → (retrieve id after).0 ≡ ok (some (record old { id = id; state = new }))
  saved_state laws id old new before after was h =
      let (o, n, had, set, is) = laws.saved id (set_state new) before after h in
      is
      ∙ ap (λ (r : Option ContainerInfo). ok (with_id id r))
          (ok_injective (sym set ∙ ap (set_state new) (ok_injective (sym had ∙ was))))

  Refreshed-new :
      StoreLaws m
      → (id : Str) (d : Domain) (old : ContainerInfo) (st : DomainState) (s t u s' : Sys W St)
        (c : ContainerInfo) {v : Unit {0}}
      → (retrieve id s.meta).0 ≡ ok (some old)
      → on_world (x.state d) s ≡ (ok st, t)
      → on_meta (m.save id (set_state (virt_to_kube_state st old.state))) t ≡ (ok v, u)
      → pure (some (record old { state = virt_to_kube_state st old.state })) u ≡ (ok (some c), s')
      → Refreshed id d old s.meta s'.meta s'.world c
  Refreshed-new laws id d old st s t u s' c was asked wrote h =
      let (seen, kept) = on_world-parts (x.state d) s asked in
      let (saved, worlds) = on_meta-parts _ t wrote in
      let last : u ≡ s' = λ i. (h i).1 in
      let step : m.save id (set_state (virt_to_kube_state st old.state)) s.meta ≡ (ok tt, s'.meta) =
        ap (m.save id (set_state (virt_to_kube_state st old.state))) kept
        ∙ saved
        ∙ (λ i. (ok tt, (last i).meta)) in
      record {
        last_seen = s.world;
        domain_state = st;
        seen = seen ∙ (λ i. (ok st, (worlds ∙ ap (λ (z : Sys W St). z.world) last) i));
        result = sym (some_eq h);
        stored = record old { id = id; state = virt_to_kube_state st old.state };
        is = saved_state laws id old _ s.meta s'.meta was step;
        agrees = λ i. (some_eq h i).state;
        others = λ j ne. laws.kept id j _ s.meta s'.meta step ne;
      }

  refresh-Refreshed :
      StoreLaws m
      → (id : Str) (d : Domain) (old : ContainerInfo) (s s' : Sys W St) (c : ContainerInfo)
      → (retrieve id s.meta).0 ≡ ok (some old)
      → refresh x m id d old s ≡ (ok (some c), s')
      → Refreshed id d old s.meta s'.meta s'.world c
  unfolding refresh
  refresh-Refreshed laws id d old s s' c was h = stepping _ _ h λ st t asked h1.
      elim (Bool-cases (same_state old.state (virt_to_kube_state st old.state))) [
        | inl same ↦ Refreshed-same id d old st s t s' c was asked same (rw same at h1)
        | inr differs ↦
            stepping _ _ (rw differs at h1)
              λ v u wrote h2. Refreshed-new laws id d old st s t u s' c was asked wrote h2
      ]

  known :
      StoreLaws m
      → (id : Str) (d : Domain) (info : Option ContainerInfo) (s s' : Sys W St) (c : ContainerInfo)
      → (retrieve id s.meta).0 ≡ ok info
      → refresh_known x m id d info s ≡ (ok (some c), s')
      → (old : ContainerInfo) × ((retrieve id s.meta).0 ≡ ok (some old))
        × Refreshed id d old s.meta s'.meta s'.world c
  known laws id d none s s' c was h = absurd (cc)
  known laws id d (some old) s s' c was h = (old, was, refresh-Refreshed laws id d old s s' c was h)

  -- A successful ContainerInfo that returns a record has found the domain in libvirt and the
  -- container in the store, and has refreshed that record from the state that libvirt reported.
  pub container_info-Refreshed :
      StoreLaws m
      → (id : Str) (s s' : Sys W St) (c : ContainerInfo)
      → container_info x m id s ≡ (ok (some c), s')
      → (d : Domain) × ((x.lookup_domain_by_uuid_string id s.world).0 ≡ ok d)
        × ((old : ContainerInfo) × ((retrieve id s.meta).0 ≡ ok (some old))
            × Refreshed id d old s.meta s'.meta s'.world c)
  unfolding container_info
  container_info-Refreshed laws id s s' c h = stepping _ _ h λ d s1 found h1.
      stepping _ _ h1 λ info s2 read h2.
        let (f, kept) = on_world-parts _ s found in
        let (r, _) = on_meta-parts _ s1 read in
        let metas : s.meta ≡ s2.meta =
          kept ∙ sym (laws.pure_retrieve id s1.meta) ∙ (λ i. (r i).1) in
        let was : (retrieve id s2.meta).0 ≡ ok info =
          (λ i. (retrieve id (sym metas i)).0) ∙ (λ i. (retrieve id (kept i)).0) ∙ (λ i. (r i).0) in
        (
          d,
          (λ i. (f i).0),
          subst
              (λ a.
                (old : ContainerInfo) × ((retrieve id a).0 ≡ ok (some old))
                × Refreshed id d old a s'.meta s'.world c)
              (sym metas) (known laws id d info s2 s' c was h2),
        )
