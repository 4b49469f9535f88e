-- ===== src/Prog/Steady.antt =====
-- Calls that move the state along a relation and never run out of rounds, and the blocks made of
-- them.
use virtlet.Prelude.{String, ◌≡◌, refl, ◌∙◌, Bool, true, false}
use virtlet.Result.{Result, ok, err, fault, wrapped, caught, panic, out_of_rounds, Fault}
use virtlet.Prog.Defs.{Prog, ◌>>=◌, continue, annotate, attempt}

-- A relation between the states before and after that does not mind how many steps were taken.
pub record Course (S : Type 0) : Type 1 where
  pub leads : S → S → Type 0
  pub stay : (s : S) → leads s s
  pub go_on : {s t u : S} → leads s t → leads t u → leads s u

-- The call has come to an end, be it with a panic.
abbrev pub ends : {A : Type 0} → Result A → Bool
ends (ok a) = true
ends (err e) = true
ends (fault panic) = true
ends (fault out_of_rounds) = false

module _ {A : Type 0} where
  ends-wrapped : (text : String) (r : Result A) → ends (wrapped text r) ≡ ends r
  ends-wrapped text (ok a) = refl
  ends-wrapped text (err e) = refl
  ends-wrapped text (fault panic) = refl
  ends-wrapped text (fault out_of_rounds) = refl

  ends-caught : (r : Result A) → ends (caught r) ≡ ends r
  ends-caught (ok a) = refl
  ends-caught (err e) = refl
  ends-caught (fault panic) = refl
  ends-caught (fault out_of_rounds) = refl

module _ {S : Type 0} (c : Course S) where
  open c use {leads, stay, go_on}

  abbrev pub Arrives : {A : Type 0} → S → Result A × S → Type 0
  Arrives s p = leads s p.1 × (ends p.0 ≡ true)

  abbrev pub IsSteady : {A : Type 0} → Prog S A → Type 0
  IsSteady m = (s : S) → Arrives s (m s)

  module _ {A B : Type 0} where
    continue-Arrives :
        (f : A → Prog S B) (s : S) (r : Result A) (t : S)
        → Arrives s (r, t)
        → ((a : A) → leads s t → Arrives t (f a t))
        → Arrives s (continue f r t)
    continue-Arrives f s (ok a) t (moved, over) rest =
        (go_on moved (rest a moved).0, (rest a moved).1)
    continue-Arrives f s (err e) t h rest = (h.0, refl)
    continue-Arrives f s (fault x) t h rest = (h.0, fault_ends x h.1)
      where
        fault_ends : (x : Fault) → ends {A = A} (fault x) ≡ true → ends {A = B} (fault x) ≡ true
        fault_ends panic e = refl
        fault_ends out_of_rounds e = e

    pub >>=-Arrives :
        (m : Prog S A) (f : A → Prog S B) (s : S)
        → Arrives s (m s)
        → ((a : A) (t : S) → leads s t → Arrives t (f a t))
        → Arrives s ((m >>= f) s)
    unfolding ◌>>=◌
    >>=-Arrives m f s h rest = continue-Arrives f s (m s).0 (m s).1 h λ a. rest a (m s).1

    pub >>=-IsSteady :
        (m : Prog S A) (f : A → Prog S B)
        → IsSteady m
        → ((a : A) → IsSteady (f a))
        → IsSteady (m >>= f)
    >>=-IsSteady m f h rest s = >>=-Arrives m f s (h s) λ a t moved. rest a t

  module _ {A : Type 0} where
    pub annotate-IsSteady : (text : String) (m : Prog S A) → IsSteady m → IsSteady (annotate text m)
    unfolding annotate
    annotate-IsSteady text m h s = ((h s).0, ends-wrapped text (m s).0 ∙ (h s).1)

    pub attempt-IsSteady : (m : Prog S A) → IsSteady m → IsSteady (attempt m)
    unfolding attempt
    attempt-IsSteady m h s = ((h s).0, ends-caught (m s).0 ∙ (h s).1)
