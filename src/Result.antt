-- ===== src/Result.antt =====
-- Go's `error` values and panics. An error keeps the head of its message and the error that it
-- wraps; the values that the message is formatted with are left out.
use virtlet.Prelude.{ℕ, String, ◌≡◌, Bool, true, false, Option, none, ◌⊎◌, inl, inr, refl, arith}

pub data Error : Type 0 where
  -- virt.ErrDomainNotFound
  domain_not_found : Error
  -- an error of code outside the model
  foreign : ℕ → Error
  errorf : String → Error
  wrap : String → Error → Error

-- A panic unwinds the whole call, and a loop of the model may run out of its rounds.
pub data Fault : Type 0 where
  panic out_of_rounds : Fault

pub data Result {ℓ} (A : Type ℓ) : Type ℓ where
  ok : A → Result A
  err : Error → Result A
  fault : Fault → Result A

-- err == virt.ErrDomainNotFound
abbrev pub is_not_found : Error → Bool
is_not_found domain_not_found = true
is_not_found _ = false

-- if !test { return e }
abbrev pub guard : Bool → Error → Result (Unit {0})
guard false e = err e
guard true e = ok tt

-- The rest of a function runs where the call before it has returned no error.
infixl 5 ◌>>=◌ ◌>>◌
abbrev pub ◌>>=◌ {ℓ} : {A B : Type ℓ} → Result A → (A → Result B) → Result B
fault x >>= rest = fault x
err e >>= rest = err e
ok a >>= rest = rest a

abbrev pub ◌>>◌ : {B : Type 0} → Result (Unit {0}) → Result B → Result B
fault x >> rest = fault x
err e >> rest = err e
ok done >> rest = rest

-- `if _, err := m(); err != nil { … }`: the error becomes a value, a panic goes on.
abbrev pub caught {ℓ} : {A : Type ℓ} → Result A → Result (Result A)
caught (ok a) = ok (ok a)
caught (err e) = ok (err e)
caught (fault x) = fault x

-- fmt.Errorf("…: %v", err)
abbrev pub wrapped {ℓ} : {A : Type ℓ} → String → Result A → Result A
wrapped text (ok a) = ok a
wrapped text (err e) = err (wrap text e)
wrapped text (fault x) = fault x

pub ok_injective : {A : Type 0} {a b : A} → ok a ≡ ok b → a ≡ b
ok_injective e = ground arith

-- What a call returns after its deferred function: a panic of the latter replaces the result.
abbrev pub settle {ℓ} : {A B : Type ℓ} → Result A → Result B → Result A
settle r (fault x) = fault x
settle r (ok b) = r
settle r (err e) = r

-- err == nil
abbrev pub succeeded : {A : Type 0} → Result A → Bool
succeeded (ok a) = true
succeeded (err e) = false
succeeded (fault f) = false

-- The value, where err == nil and it is not nil.
abbrev pub known : {A : Type 0} → Result (Option A) → Option A
known (ok a) = a
known (err e) = none
known (fault f) = none

pub succeeded-cases : {A : Type 0} (r : Result A) → ((a : A) × (r ≡ ok a)) ⊎ (succeeded r ≡ false)
succeeded-cases (ok a) = inl (a, refl)
succeeded-cases (err e) = inr refl
succeeded-cases (fault f) = inr refl
