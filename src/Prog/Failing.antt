-- ===== src/Prog/Failing.antt =====
-- What holds of the state after a block that fails, with an error or a panic.
use mathlib.Core.Path.{subst}
use virtlet.Prelude.{String, false, ◌≡◌, ◌⊎◌, inl, inr, refl, sym, ap, ◌∙◌, arith}
use virtlet.Result.{Error, Result, ok, err, fault, caught, settle, succeeded, wrapped}
use virtlet.Prog.Defs.{Prog, ◌>>=◌, attempt, continue, annotate, unless_err}
use virtlet.Prog.Laws.{attempt-parts, settle-eq-ok}

module _ {S : Type 0} (P : S → Type 0) where
  abbrev pub Failing : {A : Type 0} → Result A × S → Type 0
  Failing run = succeeded run.0 ≡ false → P run.1

  module _ {A B : Type 0} (f : A → Prog S B) where
    continue-Failing :
        (r : Result A) (t : S)
        → Failing (r, t)
        → ((a : A) → r ≡ ok a → Failing (f a t))
        → Failing (continue f r t)
    continue-Failing (ok a) t h rest = rest a refl
    continue-Failing (err e) t h rest = λ failed. h refl
    continue-Failing (fault x) t h rest = λ failed. h refl

    -- A block fails in its first step or in the rest.
    pub >>=-Failing :
        (m : Prog S A) (s : S)
        → Failing (m s)
        → ((a : A) → m s ≡ (ok a, (m s).1) → Failing (f a (m s).1))
        → Failing ((m >>= f) s)
    unfolding ◌>>=◌
    >>=-Failing m s h rest = continue-Failing (m s).0 (m s).1 h λ a e. rest a λ i. (e i, (m s).1)

  module _ {A : Type 0} where
    wrapped-Failing :
        (text : String) (r : Result A) (t : S) → Failing (r, t) → Failing (wrapped text r, t)
    wrapped-Failing text (ok a) t h = h
    wrapped-Failing text (err e) t h = h
    wrapped-Failing text (fault x) t h = h

    pub annotate-Failing :
        (text : String) (m : Prog S A) (s : S) → Failing (m s) → Failing (annotate text m s)
    unfolding annotate
    annotate-Failing text m s h = wrapped-Failing text (m s).0 (m s).1 h

err_injective : {B : Type 0} {x e : Error} → ◌≡◌ {A = Result B} (err x) (err e) → x ≡ e
err_injective e = ground arith

module _ {A : Type 0} where
  caught-eq-err : (r : Result A) {e : Error} → ¬ (caught r ≡ err e)
  caught-eq-err (ok a) h = cc
  caught-eq-err (err x) h = cc
  caught-eq-err (fault x) h = cc

module _ {S A B : Type 0} where
  module _ (f : A → Prog S B) where
    continue-eq-err :
        (r : Result A) (u : S) {e : Error} {t : S}
        → continue f r u ≡ (err e, t)
        → ((r ≡ err e) × (u ≡ t)) ⊎ ((a : A) × (r ≡ ok a) × (f a u ≡ (err e, t)))
    continue-eq-err (ok a) u h = inr (a, refl, h)
    continue-eq-err (err x) u {e} h = inl (ap err (err_injective (λ i. (h i).0)), λ i. (h i).1)
    continue-eq-err (fault x) u {e} h = let k : fault x ≡ err e = λ i. (h i).0 in absurd (cc)

    -- A block that returns an error has it from its first step or from the rest.
    pub >>=-eq-err :
        (m : Prog S A) (s : S) {e : Error} {t : S}
        → (m >>= f) s ≡ (err e, t)
        → (((m s).0 ≡ err e) × ((m s).1 ≡ t))
          ⊎ ((a : A) × ((m s).0 ≡ ok a) × (f a (m s).1 ≡ (err e, t)))
    unfolding ◌>>=◌
    >>=-eq-err m s h = continue-eq-err (m s).0 (m s).1 h

  unless_err-cases :
      (m : Prog S A) (cleanup : Prog S B) (s : S) (r : Result A) {e : Error} {t : S}
      → (m s).0 ≡ r
      → unless_err m cleanup s ≡ (err e, t)
      → (succeeded (m s).0 ≡ false) × ((cleanup (m s).1).1 ≡ t)
  unfolding unless_err
  unless_err-cases m cleanup s (ok a) {e} is h =
      let k : ok a ≡ err e = λ i. ((rw (is, unless_err) at h) i).0 in absurd (cc)
  unless_err-cases m cleanup s (err x) is h =
      (ap succeeded is, λ i. ((rw (is, unless_err) at h) i).1)
  unless_err-cases m cleanup s (fault x) {e} is h =
      let k : fault x ≡ err e = λ i. ((rw (is, unless_err) at h) i).0 in absurd (cc)

  -- An error is returned after the deferred function has run.
  pub unless_err-eq-err :
      (m : Prog S A) (cleanup : Prog S B) (s : S) {e : Error} {t : S}
      → unless_err m cleanup s ≡ (err e, t)
      → (succeeded (m s).0 ≡ false) × ((cleanup (m s).1).1 ≡ t)
  unless_err-eq-err m cleanup s h = unless_err-cases m cleanup s (m s).0 refl h

module _ {S A B : Type 0} where
  -- Where the error of the first step is a value, the block's error comes from the rest.
  pub attempt-eq-err :
      (f : Result A → Prog S B) (m : Prog S A) (s : S) {e : Error} {t : S}
      → (attempt m >>= f) s ≡ (err e, t)
      → f (m s).0 (m s).1 ≡ (err e, t)
  unfolding attempt
  attempt-eq-err f m s h = elim (>>=-eq-err f (attempt m) s h) [
    | inl never ↦ absurd (caught-eq-err (m s).0 never.0)
    | inr (r, is, rest) ↦
        let same : (m s).0 ≡ r = λ i. (attempt-parts m s {r = r} (λ j. (is j, (m s).1)) i).0 in
        ap (λ q. f q (m s).1) same ∙ rest
  ]

module _ {S A B : Type 0} (cleanup : Prog S B) where
  abbrev deferred : Result A → S → Result A × S
  deferred (ok a) s = (ok a, s)
  deferred (err e) s = (settle (err e) (cleanup s).0, (cleanup s).1)
  deferred (fault x) s = (fault x, s)

  deferred-eq-ok :
      (r : Result A) (s : S) {a : A} {t : S} → deferred r s ≡ (ok a, t) → (r ≡ ok a) × (s ≡ t)
  deferred-eq-ok (ok b) s h = (ap (λ (p : Result A × S). p.0) h, ap (λ (p : Result A × S). p.1) h)
  deferred-eq-ok (fault x) s h = absurd (cc)
  deferred-eq-ok (err e) s {a} h =
      let k : err e ≡ ok a = settle-eq-ok (err e) (cleanup s).0 (λ i. (h i).0) in absurd (cc)

  unless_err-deferred :
      (m : Prog S A) (s : S) (r : Result A)
      → (m s).0 ≡ r
      → unless_err m cleanup s ≡ deferred r (m s).1
  unfolding unless_err
  unless_err-deferred m s (ok a) h = rw (h, unless_err)
  unless_err-deferred m s (err e) h = rw (h, unless_err)
  unless_err-deferred m s (fault x) h = rw (h, unless_err)

  -- A call with a deferred clean-up that succeeds is the call itself.
  pub unless_err-eq-ok :
      (m : Prog S A) (s : S) {a : A} {t : S} → unless_err m cleanup s ≡ (ok a, t) → m s ≡ (ok a, t)
  unless_err-eq-ok m s h =
      let (r, e) = deferred-eq-ok (m s).0 (m s).1 (sym (unless_err-deferred m s _ refl) ∙ h) in
      λ i. (r i, e i)

module _ {S A B : Type 0} (P : S → Type 0) (cleanup : Prog S B) where
  deferred-after :
      (r : Result A) (s : S)
      → P s
      → (succeeded r ≡ false → P (cleanup s).1)
      → P (deferred cleanup r s).1
  deferred-after (ok a) s h undo = h
  deferred-after (err e) s h undo = undo refl
  deferred-after (fault x) s h undo = h

  pub unless_err-after :
      (m : Prog S A) (s : S)
      → P (m s).1
      → (succeeded (m s).0 ≡ false → P (cleanup (m s).1).1)
      → P (unless_err m cleanup s).1
  unless_err-after m s h undo =
      subst (λ p. P p.1) (sym (unless_err-deferred cleanup m s _ refl))
        (deferred-after (m s).0 (m s).1 h undo)
