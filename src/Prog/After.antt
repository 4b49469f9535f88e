-- ===== src/Prog/After.antt =====
-- What holds of the state after a block, whatever its outcome.
use virtlet.Prelude.{String, ◌≡◌, refl}
use virtlet.Result.{Result, ok, err, fault}
use virtlet.Prog.Defs.{Prog, ◌>>=◌, continue, annotate, attempt}

module _ {S : Type 0} (P : S → Type 0) where
  module _ {A B : Type 0} (f : A → Prog S B) where
    continue-after :
        (r : Result A) (t : S) → P t → ((a : A) → r ≡ ok a → P (f a t).1) → P (continue f r t).1
    continue-after (ok a) t h rest = rest a refl
    continue-after (err e) t h rest = h
    continue-after (fault x) t h rest = h

    -- A block that stops early leaves what its first step left.
    pub >>=-after :
        (m : Prog S A) (s : S)
        → P (m s).1
        → ((a : A) → m s ≡ (ok a, (m s).1) → P (f a (m s).1).1)
        → P ((m >>= f) s).1
    unfolding ◌>>=◌
    >>=-after m s h rest = continue-after (m s).0 (m s).1 h λ a e. rest a λ i. (e i, (m s).1)

  pub annotate-after :
      {A : Type 0} (text : String) (m : Prog S A) (s : S) → P (m s).1 → P (annotate text m s).1
  unfolding annotate
  annotate-after text m s h = h

  pub attempt-after : {A : Type 0} (m : Prog S A) (s : S) → P (m s).1 → P (attempt m s).1
  unfolding attempt
  attempt-after m s h = h
