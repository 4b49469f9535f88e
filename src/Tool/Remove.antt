-- ===== src/Tool/Remove.antt =====
-- What a successful RemoveContainer has done.
use mathlib.Core.Path.{subst}
use virtlet.Prelude.{
  Str, ◌≡◌, refl, sym, if◌then◌else◌, ap, ◌∙◌, Bool, true, false, Option, none, some, arith, ◌||◌,
}
use virtlet.Result.{
  Error, domain_not_found, is_not_found, wrap, Result, ok, err, fault, ok_injective, caught,
}
use virtlet.Prog.{Prog, ◌>>=◌, attempt, pure, raise, crash}
use virtlet.Prog.Laws.{stepping, attempt-parts}
use virtlet.Types.{ContainerInfo, ContainerState, VmConfig}
use virtlet.World.{World}
use virtlet.MetaStore.{MetaStore, StoreLaws, with_id}
use virtlet.Tool.State.{Sys, on_meta}
use virtlet.Tool.State.Halves.{on_world-parts, on_meta-parts}
use virtlet.Tool.Wait.Ends.{wait_loop_ok}
use virtlet.Tool.Lifecycle.{
  gone_test, config_and_state, undefine_domain, remove_domain, remove_container, delete_container,
  get_vm_config_from_metadata, is_created, is_running,
}

abbrev NoFault : {A : Type 0} → Result A → Type 0
NoFault (ok a) = Unit
NoFault (err e) = Unit
NoFault (fault f) = ⊥

module _ (x : World) (m : MetaStore) where
  open x use {W, Domain, lookup_domain_by_uuid_string}
  open m use {St, retrieve, save}

  -- libvirt was asked for the domain and did not find it.
  pub record SeenGone (id : Str) : Type 0 where
    pub asked : W
    pub answered : W
    pub not_found : lookup_domain_by_uuid_string id asked ≡ (err domain_not_found, answered)

  gone_verdict :
      (found : Result Domain) (s s' : Sys W St)
      → elim found as (λ _. Prog (Sys W St) Bool) [
        | ok d ↦ pure false
        | err e ↦ if is_not_found e then pure true else raise (wrap "error looking up domain" e)
        | fault f ↦ crash f
      ]
          s
        ≡ (ok true, s')
      → found ≡ err domain_not_found
  gone_verdict (ok d) s s' h = absurd (ground arith)
  gone_verdict (err domain_not_found) s s' h = refl
  gone_verdict (err e) s s' h = absurd (ground arith)
  gone_verdict (fault f) s s' h = absurd (ground arith)

  gone_test-SeenGone :
      (id : Str) (s s' : Sys W St) → gone_test x m id s ≡ (ok true, s') → SeenGone id
  unfolding gone_test
  gone_test-SeenGone id s s' h = stepping _ _ h λ found t asked verdict.
      let (a, _) = on_world-parts _ s (attempt-parts _ s asked) in
      record {
        asked = s.world;
        answered = t.world;
        not_found = a ∙ (λ i. (gone_verdict found t s' verdict i, t.world));
      }

  undefine_domain-SeenGone :
      (id : Str) (st : ContainerState) (d : Domain) (s s' : Sys W St) {u : Unit {0}}
      → undefine_domain x m id st d s ≡ (ok u, s')
      → SeenGone id
  unfolding undefine_domain
  undefine_domain-SeenGone id st d s s' h = stepping _ _ h λ u1 s1 destroyed h1.
      stepping _ _ h1 λ u2 s2 undefined waited.
        let (t, answered) = wait_loop_ok x (gone_test x m id) _ _ s2 s' waited in
        gone_test-SeenGone id t s' answered

  found_or_gone :
      (id : Str) (st : ContainerState) (found : Result Domain) (w w' : W) (s s' : Sys W St)
      {u : Unit {0}}
      → lookup_domain_by_uuid_string id w ≡ (found, w')
      → elim found as (λ _. Prog (Sys W St) (Unit {0})) [
        | ok domain ↦ undefine_domain x m id st domain
        | err e ↦ if is_not_found e then pure tt else raise e
        | fault f ↦ crash f
      ]
          s
        ≡ (ok u, s')
      → SeenGone id
  found_or_gone id st (ok d) w w' s s' asked h = undefine_domain-SeenGone id st d s s' h
  found_or_gone id st (err domain_not_found) w w' s s' asked h = record {
    asked = w;
    answered = w';
    not_found = asked;
  }
  found_or_gone id st (err e) w w' s s' asked h = absurd (ground arith)
  found_or_gone id st (fault f) w w' s s' asked h = absurd (ground arith)

  remove_domain-SeenGone :
      (id : Str) (config : VmConfig) (st : ContainerState) (strict : Bool) (s s' : Sys W St)
      → remove_domain x m id config st strict s ≡ (ok tt, s')
      → SeenGone id
  unfolding remove_domain
  remove_domain-SeenGone id config st strict s s' h = stepping _ _ h λ found s1 asked h1.
      stepping _ _ h1 λ u s2 undefined h2.
        let (a, _) = on_world-parts _ s (attempt-parts _ s asked) in
        found_or_gone id st found s.world s1.world s1 s2 a undefined

  -- The container's record is gone from the store, or the store refused to drop it with the error
  -- `e`.
  pub data Dropped (id : Str) (after : St) : Type 0 where
    dropped : (retrieve id after).0 ≡ ok none → Dropped id after
    refused :
        (e : Error) (before : St)
        → save id delete_container before ≡ (err e, after)
        → Dropped id after

  saved-Dropped :
      StoreLaws m
      → (id : Str) (r : Result (Unit {0})) (before after : St)
      → save id delete_container before ≡ (r, after)
      → NoFault r
      → Dropped id after
  saved-Dropped laws id (ok u) before after h calm =
      let (old, new, had, gave, is) = laws.saved id delete_container before after h in
      Dropped.dropped
        (is ∙ ap (λ (n : Option ContainerInfo). ok (with_id id n)) (sym (ok_injective gave)))
  saved-Dropped laws id (err e) before after h calm = Dropped.refused e before h
  saved-Dropped laws id (fault f) before after h calm = absurd calm

  not_fault : (q r : Result (Unit {0})) → caught q ≡ ok r → NoFault r
  not_fault (ok u) r h = subst NoFault (ok_injective h) tt
  not_fault (err e) r h = subst NoFault (ok_injective h) tt
  not_fault (fault f) r h = absurd (cc)

  -- The last step of RemoveContainer, whose error is lost.
  save-Dropped :
      StoreLaws m
      → (id : Str) (s s' : Sys W St)
      → (attempt (on_meta (save id delete_container)) >>= λ _. pure tt) s ≡ (ok tt, s')
      → Dropped id s'.meta
  unfolding attempt
  save-Dropped laws id s s' h = stepping _ _ h λ r t saved done.
      let (a, _) =
        on_meta-parts (save id delete_container) s
          (attempt-parts (on_meta (save id delete_container)) s saved) in
      let calm = not_fault (on_meta (save id delete_container) s).0 r (λ i. (saved i).0) in
      subst (Dropped id) (λ i. (done i).1.meta) (saved-Dropped laws id r s.meta t.meta a calm)

  abbrev config_of : Option ContainerInfo → Option VmConfig
  config_of none = none
  config_of (some c) = some c.config

  config_found :
      (info : Option ContainerInfo) {found : Option VmConfig × ContainerState}
      → config_and_state x m info ≡ found
      → found.0 ≡ config_of info
  config_found none h = sym (λ i. (h i).0)
  config_found (some c) h = sym (λ i. (h i).0)

  -- When RemoveContainer of a container with a record succeeds, libvirt has been asked for the
  -- domain and has not found it any more, and either the record is gone from the store, or the
  -- store has refused to delete it, an error that is not returned.
  pub remove_container-Dropped :
      StoreLaws m
      → (id : Str) (c : ContainerInfo) (s s' : Sys W St) → (retrieve id s.meta).0 ≡ ok (some c)
      → remove_container x m id s ≡ (ok tt, s')
      → SeenGone id × Dropped id s'.meta
  unfolding remove_container get_vm_config_from_metadata
  remove_container-Dropped laws id c s s' was h = stepping _ _ h λ found t looked h1.
      stepping _ _ looked λ info t1 read given.
        let (a, _) = on_meta-parts _ s read in
        let is : info ≡ some c = ok_injective (sym (λ i. (a i).0) ∙ was) in
        let there : found.0 ≡ some c.config =
          config_found info (ok_injective (λ i. (given i).0)) ∙ (λ i. config_of (is i)) in
        stepping _ _ (rw there at h1) λ u t2 removed rest. (
          remove_domain-SeenGone id c.config found.1 (is_created found.1 || is_running found.1) t t2
              removed,
          save-Dropped laws id t2 s' rest,
        )
