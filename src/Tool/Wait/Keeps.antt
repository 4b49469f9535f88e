-- ===== src/Tool/Wait/Keeps.antt =====
-- WaitLoop leaves the metadata store alone where its test does.
use virtlet.Prelude.{
  ℕ, zero, suc, ◌-◌, ◌/◌, ◌≡◌, refl, ◌∙◌, Bool, true, false, Bool-cases, inl, inr, ltb,
}
use virtlet.Result.{Result, ok, err, fault}
use virtlet.Prog.{Prog}
use virtlet.World.{World}
use virtlet.Tool.State.{Sys}
use virtlet.Tool.Wait.Loop.{wait_rounds, wait_loop, after_test}

-- `m` does not touch the metadata store.
abbrev pub KeepsMeta : {W St A : Type 0} → Prog (Sys W St) A → Type 0
KeepsMeta {W} {St} m = (s : Sys W St) → (m s).1.meta ≡ s.meta

module _ (x : World) {St : Type 0} (test : Prog (Sys x.W St) Bool) (kept : KeepsMeta test)
    (retry_period timeout : ℕ) where
  after_test_keeps :
      (again : Prog (Sys x.W St) (Unit {0})) (r : Result Bool) (s : Sys x.W St)
      → KeepsMeta again
      → (after_test x retry_period again r s).1.meta ≡ s.meta
  after_test_keeps again (ok true) s h = refl
  after_test_keeps again (ok false) s h = h (record s { world = x.sleep retry_period s.world })
  after_test_keeps again (err e) s h = refl
  after_test_keeps again (fault f) s h = refl

  rounds_keep :
      (rounds start : ℕ) → KeepsMeta (wait_rounds x rounds test retry_period timeout start)
  unfolding wait_rounds
  rounds_keep zero start s = refl
  rounds_keep (suc rounds) start s =
      let again = wait_rounds x rounds test retry_period timeout start in
      let rest = rounds_keep rounds start in
      elim (Bool-cases (ltb (x.now s.world - start) timeout)) [
        | inl more ↦
            rw (more, wait_rounds) (after_test_keeps again (test s).0 (test s).1 rest ∙ kept s)
        | inr over ↦ rw (over, wait_rounds)
      ]

  pub wait_loop-KeepsMeta : KeepsMeta (wait_loop x test retry_period timeout)
  unfolding wait_loop
  wait_loop-KeepsMeta s = rounds_keep (suc (suc (timeout / retry_period))) (x.now s.world) s
