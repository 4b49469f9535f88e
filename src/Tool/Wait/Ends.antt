-- ===== src/Tool/Wait/Ends.antt =====
-- WaitLoop: it ends within its rounds, and what it returns was the last answer of its test.
use native.Mathlib.Nat.{div-add-mod, mod-lt}
use virtlet.Prelude.{
  ℕ, zero, suc, ◌+◌, ◌-◌, ◌*◌, ◌/◌, ◌≤◌, ◌<◌, ◌≡◌, ◌≢◌, refl, Bool, true, false, Bool-cases, inl,
  inr, ltb, arith,
}
use virtlet.Result.{Result, ok, err, fault, panic, out_of_rounds}
use virtlet.Prog.{Prog}
use virtlet.World.{World, IsClock}
use virtlet.Tool.State.{Sys}
use virtlet.Tool.Wait.Loop.{wait_rounds, wait_loop, after_test}

module _ (x : World) {St : Type 0} (test : Prog (Sys x.W St) Bool) where
  -- The clock does not go back while the test runs, and the test itself does not run out of rounds.
  pub record IsTimely : Type 0 where
    pub takes_time : (s : Sys x.W St) → x.now s.world ≤ x.now (test s).1.world
    pub answers : (s : Sys x.W St) → (test s).0 ≢ fault out_of_rounds

module _ (x : World) {St : Type 0} (clock : IsClock x) (test : Prog (Sys x.W St) Bool)
    (timely : IsTimely x test) (retry_period timeout start : ℕ) where
  -- One round: what the sleep gives, for the induction on the rounds.
  round_ends :
      (rounds : ℕ) (s s' : Sys x.W St)
      → x.now s.world ≤ x.now s'.world
      → start ≤ x.now s.world
      → timeout ≤ (x.now s.world - start) + suc rounds * retry_period
      → timeout ≤ (x.now (x.sleep retry_period s'.world) - start) + rounds * retry_period
  round_ends rounds s s' later after enough =
      let slept = clock.sleeps retry_period s'.world in grind arith

  after_test_ends :
      (again : Prog (Sys x.W St) (Unit {0})) (r : Result Bool) (s : Sys x.W St)
      → r ≢ fault out_of_rounds
      → (again (record s { world = x.sleep retry_period s.world })).0 ≢ fault out_of_rounds
      → (after_test x retry_period again r s).0 ≢ fault out_of_rounds
  after_test_ends again (ok true) s answered ends = λ e. cc
  after_test_ends again (ok false) s answered ends = ends
  after_test_ends again (err x) s answered ends = λ e. cc
  after_test_ends again (fault panic) s answered ends = λ e. cc
  after_test_ends again (fault out_of_rounds) s answered ends = absurd (answered refl)

  rounds_end :
      (rounds : ℕ) (s : Sys x.W St)
      → start ≤ x.now s.world
      → timeout ≤ (x.now s.world - start) + rounds * retry_period
      → (wait_rounds x (suc rounds) test retry_period timeout start s).0 ≢ fault out_of_rounds
  unfolding wait_rounds
  rounds_end zero s after enough = ground arith
  rounds_end (suc rounds) s after enough =
      let s' = (test s).1 in
      let s'' : Sys x.W St = record s' { world = x.sleep retry_period s'.world } in
      let slept = clock.sleeps retry_period s'.world in
      let later = timely.takes_time s in
      let rest = rounds_end rounds s'' (omega arith) (round_ends rounds s s' later after enough) in
      elim (Bool-cases (ltb (x.now s.world - start) timeout)) [
        | inl more ↦
            rw (more, wait_rounds)
              (after_test_ends (wait_rounds x (suc rounds) test retry_period timeout start)
                (test s).0 s' (timely.answers s) rest)
        | inr over ↦ rw (over, wait_rounds) (λ e. cc)
      ]

module _ (x : World) {St : Type 0} (test : Prog (Sys x.W St) Bool) (retry_period timeout : ℕ) where
  enough_rounds : 0 < retry_period → timeout ≤ 0 + suc (timeout / retry_period) * retry_period
  enough_rounds positive =
      let whole = div-add-mod timeout retry_period in
      let part = mod-lt timeout positive in grind arith

  -- WaitLoop ends within the rounds that the model gives it, for every positive retry period and
  -- every timeout: by success, an error of the test, its panic, or the timeout.
  pub wait_loop_ends :
      IsClock x
      → IsTimely x test
      → 0 < retry_period
      → (s : Sys x.W St) → (wait_loop x test retry_period timeout s).0 ≢ fault out_of_rounds
  unfolding wait_loop
  wait_loop_ends clock timely positive s =
      let enough = enough_rounds positive in
      rounds_end x clock test timely retry_period timeout (x.now s.world)
        (suc (timeout / retry_period)) s (omega arith) (omega arith)

  after_test_ok :
      (again : Prog (Sys x.W St) (Unit {0})) (r : Result Bool) (before s s' : Sys x.W St)
      → test before ≡ (r, s)
      → ((t : Sys x.W St) → again t ≡ (ok tt, s') → (u : Sys x.W St) × (test u ≡ (ok true, s')))
      → after_test x retry_period again r s ≡ (ok tt, s')
      → (u : Sys x.W St) × (test u ≡ (ok true, s'))
  after_test_ok again (ok true) before s s' asked rest h = (before, cc)
  after_test_ok again (ok false) before s s' asked rest h = rest _ h
  after_test_ok again (err e) before s s' asked rest h = absurd (cc)
  after_test_ok again (fault f) before s s' asked rest h = absurd (cc)

  rounds_ok :
      (rounds start : ℕ) (s s' : Sys x.W St)
      → wait_rounds x rounds test retry_period timeout start s ≡ (ok tt, s')
      → (u : Sys x.W St) × (test u ≡ (ok true, s'))
  unfolding wait_rounds
  rounds_ok zero start s s' h = absurd (cc)
  rounds_ok (suc rounds) start s s' h = elim (Bool-cases (ltb (x.now s.world - start) timeout)) [
    | inl more ↦
        after_test_ok (wait_rounds x rounds test retry_period timeout start) (test s).0 s (test s).1
          s' refl (λ t. rounds_ok rounds start t s') (rw (more, wait_rounds) at h)
    | inr over ↦ absurd (cc (rw (over, wait_rounds) at h))
  ]

  -- WaitLoop succeeds only in the state in which its test has just answered true.
  pub wait_loop_ok :
      (s s' : Sys x.W St)
      → wait_loop x test retry_period timeout s ≡ (ok tt, s')
      → (u : Sys x.W St) × (test u ≡ (ok true, s'))
  unfolding wait_loop
  wait_loop_ok s s' h = rounds_ok (suc (suc (timeout / retry_period))) (x.now s.world) s s' h
