-- ===== src/Prog/Defs.antt =====
-- Methods that change the state and return `(value, error)`. What was written before an error
-- stays written, so the state comes back beside the error too.
use virtlet.Prelude.{String}
use virtlet.Result.{Error, Fault, Result, ok, err, fault, caught, wrapped, settle}

abbrev pub Prog {ℓ} : Type ℓ → Type ℓ → Type ℓ
Prog S A = S → Result A × S

module _ {ℓ} {S : Type ℓ} where
  abbrev pub pure : {A : Type ℓ} → A → Prog S A
  pure a s = (ok a, s)

  abbrev pub raise : {A : Type ℓ} → Error → Prog S A
  raise e s = (err e, s)

  abbrev pub crash : {A : Type ℓ} → Fault → Prog S A
  crash x s = (fault x, s)

  abbrev pub get_state : Prog S S
  get_state s = (ok s, s)

  abbrev pub lift : {A : Type ℓ} → Result A → Prog S A
  lift r s = (r, s)

  abbrev pub continue : {A B : Type ℓ} → (A → Prog S B) → Result A → S → Result B × S
  continue f (ok a) s = f a s
  continue f (err e) s = (err e, s)
  continue f (fault x) s = (fault x, s)

  infixl 5 ◌>>=◌
  unfoldable pub ◌>>=◌ : {A B : Type ℓ} → Prog S A → (A → Prog S B) → Prog S B
  ◌>>=◌ m f s = let (r, s') = m s in continue f r s'

  unfoldable pub attempt : {A : Type ℓ} → Prog S A → Prog S (Result A)
  attempt m s = let (r, s') = m s in (caught r, s')

  -- A deferred function that runs unless `m` succeeds: the failure is returned after it, or its own
  -- panic.
  unfoldable pub unless_ok : {A B : Type ℓ} → Prog S A → Prog S B → Prog S A
  unless_ok m cleanup s =
      let (r, s') = m s in
      elim r [
        | ok a ↦ (ok a, s')
        | err e ↦ (let (c, s'') = cleanup s' in (settle (err e) c, s''))
        | fault x ↦ (let (c, s'') = cleanup s' in (settle (fault x) c, s''))
      ]

  -- A deferred function that runs where `m` returns an error, and not where it panics.
  unfoldable pub unless_err : {A B : Type ℓ} → Prog S A → Prog S B → Prog S A
  unless_err m cleanup s =
      let (r, s') = m s in
      elim r [
        | ok a ↦ (ok a, s')
        | err e ↦ (let (c, s'') = cleanup s' in (settle (err e) c, s''))
        | fault x ↦ (fault x, s')
      ]

  unfoldable pub annotate : {A : Type ℓ} → String → Prog S A → Prog S A
  annotate text m s = let (r, s') = m s in (wrapped text r, s')

module _ {S : Type 0} where
  infixl 5 ◌>>◌
  abbrev pub ◌>>◌ : {B : Type 0} → Prog S (Unit {0}) → Prog S B → Prog S B
  m >> k = m >>= λ _. k
