-- ===== src/Tool/Wait/Loop.antt =====
-- pkg/utils/wait.go: WaitLoop.
use virtlet.Prelude.{ℕ, zero, suc, ◌-◌, ◌/◌, Bool, true, false, ltb}
use virtlet.Result.{Result, ok, err, fault, out_of_rounds, errorf}
use virtlet.Prog.{Prog}
use virtlet.World.{World}
use virtlet.Tool.State.{Sys}

module _ (x : World) {St : Type 0} where
  -- The body of the loop after the call of the test; `again` is the rest of the loop.
  abbrev pub after_test :
      ℕ → Prog (Sys x.W St) (Unit {0}) → Result Bool → Sys x.W St → Result (Unit {0}) × Sys x.W St
  after_test retry_period again (ok true) s = (ok tt, s)
  after_test retry_period again (ok false) s =
      again (record s { world = x.sleep retry_period s.world })
  after_test retry_period again (err e) s = (err e, s)
  after_test retry_period again (fault f) s = (fault f, s)

  -- The `for` loop; each round begins with the test of the clock, `clock.Since(start) < timeout`.
  unfoldable pub wait_rounds :
      ℕ → Prog (Sys x.W St) Bool → (retry_period timeout start : ℕ) → Prog (Sys x.W St) (Unit {0})
  wait_rounds zero test retry_period timeout start s = (fault out_of_rounds, s)
  wait_rounds (suc rounds) test retry_period timeout start s =
      elim (ltb (x.now s.world - start) timeout) [
        | false ↦ (err (errorf "timeout reached"), s)
        | true ↦
            let (r, s') = test s in
            after_test retry_period (wait_rounds rounds test retry_period timeout start) r s'
      ]

  -- Each round sleeps for `retry_period`, so `timeout / retry_period + 2` rounds are enough.
  unfoldable pub wait_loop :
      Prog (Sys x.W St) Bool → (retry_period timeout : ℕ) → Prog (Sys x.W St) (Unit {0})
  wait_loop test retry_period timeout s =
      wait_rounds (suc (suc (timeout / retry_period))) test retry_period timeout (x.now s.world) s
