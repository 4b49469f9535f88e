-- ===== src/Tool/Stopped.antt =====
-- What a successful StopContainer has done.
use mathlib.Core.Path.{subst, subst₂}
use virtlet.Prelude.{
  ℕ, Str, ◌≡◌, ◌≢◌, ◌⊎◌, inl, inr, refl, sym, ◌∙◌, Bool, Bool-cases, true, false, if◌then◌else◌,
  Option, arith,
}
use virtlet.Result.{Error, Result, ok, err, errorf, fault, is_not_found, wrap}
use virtlet.Prog.{Prog, ◌>>=◌, annotate, attempt, pure, raise, crash}
use virtlet.Prog.Laws.{stepping, attempt-parts}
use virtlet.Types.{ContainerInfo, exited, VmConfig}
use virtlet.Types.Domain.{DomainState}
use virtlet.World.{World}
use virtlet.MetaStore.{MetaStore, StoreLaws, with_id}
use virtlet.Tool.State.{Sys, on_world, on_meta}
use virtlet.Tool.State.Halves.{annotated-parts, on_world-parts, on_meta-parts}
use virtlet.Tool.Start.{is_shutoff→eq}
use virtlet.Tool.Wait.Loop.{wait_loop}
use virtlet.Tool.Wait.Ends.{wait_loop_ok}
use virtlet.Tool.Wait.Keeps.{KeepsMeta, wait_loop-KeepsMeta}
use virtlet.Tool.Lifecycle.{
  is_shutoff, stop_container, stop_test, shutdown_once, cleanup_volumes,
  get_vm_config_from_metadata, teardown_volumes, set_state, domain_shutdown_retry_interval,
}

module _ (x : World) (m : MetaStore) where
  open x use {W, Domain}
  open m use {St, retrieve, save}

  shutdown_once-KeepsMeta : (d : Domain) → KeepsMeta (shutdown_once x m d)
  unfolding shutdown_once ◌>>=◌ annotate attempt on_world
  shutdown_once-KeepsMeta d s = ground arith

  stop_test-KeepsMeta : (id : Str) (d : Domain) → KeepsMeta (stop_test x m id d)
  unfolding stop_test ◌>>=◌ attempt on_world
  stop_test-KeepsMeta id d s =
      let asked : Sys W St = record s { world = (x.lookup_domain_by_uuid_string id s.world).1 } in
      let k = shutdown_once-KeepsMeta d asked in ground arith

  teardown_volumes-KeepsMeta : (c : VmConfig) → KeepsMeta (teardown_volumes x m c)
  unfolding teardown_volumes on_world
  teardown_volumes-KeepsMeta c s = refl

  cleanup_volumes-KeepsMeta : StoreLaws m → (id : Str) → KeepsMeta (cleanup_volumes x m id)
  unfolding cleanup_volumes get_vm_config_from_metadata teardown_volumes ◌>>=◌ attempt on_meta
      on_world
  cleanup_volumes-KeepsMeta laws id s = let k = laws.pure_retrieve id s.meta in ground arith

  -- How a domain went down, by the last call, which left the world as `last`: libvirt no longer
  -- found it or reported it as shut off, or it was destroyed.
  abbrev pub Down : Str → Domain → W → Type 0
  Down id d last =
      ((w : W) × (e : Error) × (x.lookup_domain_by_uuid_string id w ≡ (err e, last))
        × (is_not_found e ≡ true))
      ⊎ (((w : W) × (x.state d w ≡ (ok DomainState.shutoff, last)))
          ⊎ ((w : W) × (x.destroy d w ≡ (ok tt, last))))

  shutdown_once-shutoff :
      (d : Domain) (s s' : Sys W St)
      → shutdown_once x m d s ≡ (ok true, s')
      → (w : W) × (x.state d w ≡ (ok DomainState.shutoff, s'.world))
  unfolding shutdown_once
  shutdown_once-shutoff d s s' h = stepping _ _ h λ sent s1 asked h1.
      stepping _ _ h1 λ st s2 seen h2.
        let (a, _) = annotated-parts _ _ s1 seen in
        elim (Bool-cases (is_shutoff st)) [
          | inl off ↦
              (s1.world, a ∙ (λ i. (ok (is_shutoff→eq st off i), ((rw off at h2) i).1.world)))
          | inr up ↦ not_yet sent s2 s' (rw up at h2)
        ]
    where
      not_yet :
          (sent : Result (Unit {0})) (s2 s' : Sys W St) {A : Type 0}
          → elim sent as (λ _. Prog (Sys W St) Bool) [
            | ok u ↦ pure false
            | err e ↦ raise (errorf "failed to shut down domain")
            | fault f ↦ crash f
          ]
              s2
            ≡ (ok true, s')
          → A
      not_yet (ok u) s2 s' h = let k : ok false ≡ ok true = λ i. (h i).0 in absurd (cc)
      not_yet (err e) s2 s' h =
          let k : err (errorf "failed to shut down domain") ≡ ok true = λ i. (h i).0 in absurd (cc)
      not_yet (fault f) s2 s' h = let k : fault f ≡ ok true = λ i. (h i).0 in absurd (cc)

  stop_test-Down :
      (id : Str) (d : Domain) (s s' : Sys W St)
      → stop_test x m id d s ≡ (ok true, s')
      → Down id d s'.world
  unfolding stop_test
  stop_test-Down id d s s' h =
      stepping _ _ h λ found s1 looked rest. by_lookup found s1 (attempt-parts _ s looked) rest
    where
      by_lookup :
          (found : Result Domain) (s1 : Sys W St)
          → on_world (x.lookup_domain_by_uuid_string id) s ≡ (found, s1)
          → elim found as (λ _. Prog (Sys W St) Bool) [
            | ok c ↦ shutdown_once x m d
            | err e ↦
                if is_not_found e then pure true else raise (wrap "failed to look up the domain" e)
            | fault f ↦ crash f
          ]
              s1
            ≡ (ok true, s')
          → Down id d s'.world
      by_lookup (ok c) s1 looked rest = inr (inl (shutdown_once-shutoff d s1 s' rest))
      by_lookup (err e) s1 looked rest = elim (Bool-cases (is_not_found e)) [
        | inl gone ↦ inl (
          s.world,
          e,
          (on_world-parts _ s looked).0 ∙ (λ i. (err e, ((rw gone at rest) i).1.world)),
          gone,
        )
        | inr other ↦
            let k : err (wrap "failed to look up the domain" e) ≡ ok true =
              λ i. ((rw other at rest) i).0 in
            absurd (cc)
      ]
      by_lookup (fault f) s1 looked rest =
          let k : fault f ≡ ok true = λ i. (rest i).0 in absurd (cc)

  -- The domain that was found by the ID, and how it went down.
  pub record Ended (id : Str) (before : W) : Type 0 where
    pub domain : Domain
    pub found_in : W
    pub found : x.lookup_domain_by_uuid_string id before ≡ (ok domain, found_in)
    pub last : W
    pub down : Down id domain last

  -- The container's record before and after StopContainer.
  pub record Stopped (id : Str) (before after : St) : Type 0 where
    pub old : Option ContainerInfo
    pub new : Option ContainerInfo
    pub was : (retrieve id before).0 ≡ ok old
    pub marked : set_state exited old ≡ ok new
    pub is : (retrieve id after).0 ≡ ok (with_id id new)
    pub others : (j : Str) → id ≢ j → (retrieve j after).0 ≡ (retrieve j before).0

  -- What StopContainer does with the result of the wait.
  powered_off :
      (id : Str) (timeout period : ℕ) (d : Domain) (r : Result (Unit {0})) (s0 s s' : Sys W St)
      {u : Unit {0}}
      → wait_loop x (stop_test x m id d) period timeout s0 ≡ (r, s)
      → elim r as (λ _. Prog (Sys W St) (Unit {0})) [
        | ok v ↦ pure tt
        | err e ↦ annotate "failed to destroy the domain" (on_world (x.destroy d))
        | fault f ↦ crash f
      ]
          s
        ≡ (ok u, s')
      → Down id d s'.world × (s.meta ≡ s'.meta)
  powered_off id timeout period d (ok v) s0 s s' waited h =
      let (u, answered) = wait_loop_ok x (stop_test x m id d) period timeout s0 s waited in
      (subst (Down id d) (λ i. (h i).1.world) (stop_test-Down id d u s answered), λ i. (h i).1.meta)
  powered_off id timeout period d (err e) s0 s s' waited h =
      let (gone, kept) = annotated-parts _ (x.destroy d) s h in (inr (inr (s.world, gone)), kept)
  powered_off id timeout period d (fault f) s0 s s' waited h = absurd (cc)

  -- When StopContainer succeeds, libvirt has answered that there is no domain with the container's
  -- ID, or has reported its domain as shut off, or the domain was destroyed; the container's record, if there is one, is marked as exited and kept, and every
  -- other record is as before.
  pub stop_container-Stopped :
      StoreLaws m
      → (id : Str) (timeout : ℕ) (s s' : Sys W St) → stop_container x m id timeout s ≡ (ok tt, s')
      → Ended id s.world × Stopped id s.meta s'.meta
  unfolding stop_container
  stop_container-Stopped laws id timeout s s' h = stepping _ _ h λ d s1 found h1.
      stepping _ _ h1 λ r s2 waited h2. stepping _ _ h2 λ u s3 off h3.
        stepping _ _ h3 λ v s4 saved cleaned.
          let (looked, k1) = on_world-parts _ s found in
          let waited' = attempt-parts _ s1 waited in
          let k2 =
            wait_loop-KeepsMeta x (stop_test x m id d) (stop_test-KeepsMeta id d)
              domain_shutdown_retry_interval timeout s1 in
          let (down, k3) =
            powered_off id timeout domain_shutdown_retry_interval d r s1 s2 s3 waited' off in
          let metas : s.meta ≡ s3.meta = k1 ∙ sym k2 ∙ (λ i. (waited' i).1.meta) ∙ k3 in
          let (saved', _) = on_meta-parts _ s3 saved in
          let last : s4.meta ≡ s'.meta =
            sym (cleanup_volumes-KeepsMeta laws id s4) ∙ (λ i. (cleaned i).1.meta) in
          let (old, new, was, marked, is) =
            laws.saved id (set_state exited) s3.meta s4.meta saved' in
          (
            record {
              domain = d;
              found_in = s1.world;
              found = looked;
              last = s3.world;
              down = down;
            },
            subst₂ (λ a b. Stopped id a b) (sym metas) last
                (record {
                  old = old;
                  new = new;
                  was = was;
                  marked = marked;
                  is = is;
                  others = λ j ne. laws.kept id j (set_state exited) s3.meta s4.meta saved' ne;
                }),
          )
