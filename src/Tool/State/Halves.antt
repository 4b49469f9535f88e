-- ===== src/Tool/State/Halves.antt =====
-- A run that acts on one half of the state leaves the other half alone.
use virtlet.Prelude.{String, ◌≡◌, refl, ap, Bool, true, false, if◌then◌else◌}
use virtlet.Result.{Error, Result, ok, ok_injective}
use virtlet.Prog.{Prog, pure, raise, annotate, lift, get_state}
use virtlet.Prog.Laws.{annotate-eq-ok}
use virtlet.Tool.State.Defs.{Sys, on_world, on_meta}

module _ {W St A : Type 0} where
  pub on_world-parts :
      (p : Prog W A) (s : Sys W St) {r : Result A} {t : Sys W St}
      → on_world p s ≡ (r, t)
      → (p s.world ≡ (r, t.world)) × (s.meta ≡ t.meta)
  unfolding on_world
  on_world-parts p s h = ((λ i. ((h i).0, (h i).1.world)), (λ i. (h i).1.meta))

  -- A wrapped error is no success, so a successful call is one of the unwrapped call.
  pub annotated-parts :
      (text : String) (p : Prog W A) (s : Sys W St) {a : A} {t : Sys W St}
      → annotate text (on_world p) s ≡ (ok a, t)
      → (p s.world ≡ (ok a, t.world)) × (s.meta ≡ t.meta)
  annotated-parts text p s h = on_world-parts p s (annotate-eq-ok text (on_world p) s h)

  pub on_meta-parts :
      (p : Prog St A) (s : Sys W St) {r : Result A} {t : Sys W St}
      → on_meta p s ≡ (r, t)
      → (p s.meta ≡ (r, t.meta)) × (s.world ≡ t.world)
  unfolding on_meta
  on_meta-parts p s h = ((λ i. ((h i).0, (h i).1.meta)), (λ i. (h i).1.world))

module _ {S A : Type 0} where
  pub lift-parts :
      (r : Result A) (s : S) {q : Result A} {t : S} → lift r s ≡ (q, t) → (r ≡ q) × (s ≡ t)
  lift-parts r s h = (ap (λ (p : Result A × S). p.0) h, ap (λ (p : Result A × S). p.1) h)

module _ {S : Type 0} where
  -- A guard that returned without an error has passed.
  pub guard-parts :
      (b : Bool) (e : Error) (s : S) {u : Unit {0}} {t : S}
      → (if b then pure tt else raise e) s ≡ (ok u, t)
      → (b ≡ true) × (s ≡ t)
  guard-parts true e s h = (refl, ap (λ (p : Result (Unit {0}) × S). p.1) h)
  guard-parts false e s h = absurd (cc)

  pub get_state-parts : (s : S) {t s' : S} → get_state s ≡ (ok t, s') → (s ≡ t) × (s ≡ s')
  get_state-parts s h = (ok_injective (λ i. (h i).0), (λ i. (h i).1))
