-- ===== src/Prog/Laws.antt =====
-- Taking runs apart: what the parts of a block did.
use mathlib.Core.Path.{ap, sym, ◌∙◌}
use virtlet.Prelude.{String, ◌≡◌, refl, arith}
use virtlet.Result.{Error, Result, ok, err, fault, wrapped, caught, settle, ok_injective}
use virtlet.Prog.Defs.{Prog, ◌>>=◌, continue, annotate, attempt, unless_ok}

module _ {S A B : Type 0} where
  continue-eq-ok :
      (f : A → Prog S B) (r : Result A) (t : S) {b : B} {s' : S}
      → continue f r t ≡ (ok b, s')
      → (a : A) × (r ≡ ok a) × (f a t ≡ (ok b, s'))
  continue-eq-ok f (ok a) t h = (a, refl, h)
  continue-eq-ok f (err e) t h = absurd (cc)
  continue-eq-ok f (fault x) t h = absurd (cc)

  -- A block that succeeds has run its first step with success, and then the rest.
  pub >>=-eq-ok :
      (m : Prog S A) (f : A → Prog S B) (s : S) {b : B} {s' : S}
      → (m >>= f) s ≡ (ok b, s')
      → (a : A) × (t : S) × (m s ≡ (ok a, t)) × (f a t ≡ (ok b, s'))
  unfolding ◌>>=◌
  >>=-eq-ok m f s h =
      let (a, e, rest) = continue-eq-ok f (m s).0 (m s).1 h in (a, (m s).1, ground (arith, e), rest)

  -- The same for a proof that goes on with what the first step returned.
  pub stepping :
      (m : Prog S A) (f : A → Prog S B) {G : Type 0} {s : S} {b : B} {s' : S}
      → (m >>= f) s ≡ (ok b, s')
      → ((a : A) (t : S) → m s ≡ (ok a, t) → f a t ≡ (ok b, s') → G)
      → G
  stepping m f {s = s} h go = let (a, t, e, rest) = >>=-eq-ok m f s h in go a t e rest

  -- The rest of a block runs from where its first step has ended.
  pub ok->>= :
      (m : Prog S A) (f : A → Prog S B) (s t : S) (a : A) → m s ≡ (ok a, t) → (m >>= f) s ≡ f a t
  unfolding ◌>>=◌
  ok->>= m f s t a h = rw h

  -- An error of the first step is the block's, and the rest does not run.
  pub err->>= :
      (m : Prog S A) (f : A → Prog S B) (s t : S) (e : Error)
      → m s ≡ (err e, t)
      → (m >>= f) s ≡ (err e, t)
  unfolding ◌>>=◌
  err->>= m f s t e h = rw h

module _ {A : Type 0} where
  pub wrapped-eq-ok : (text : String) (r : Result A) {a : A} → wrapped text r ≡ ok a → r ≡ ok a
  wrapped-eq-ok text (ok a) h = h
  wrapped-eq-ok text (err e) h = absurd (cc)
  wrapped-eq-ok text (fault x) h = absurd (cc)

module _ {S A : Type 0} where
  pub annotate-eq-ok :
      (text : String) (m : Prog S A) (s : S) {a : A} {t : S}
      → annotate text m s ≡ (ok a, t)
      → m s ≡ (ok a, t)
  unfolding annotate
  annotate-eq-ok text m s h =
      ground (arith, wrapped-eq-ok text (m s).0 (ap (λ (p : Result A × S). p.0) h))

module _ {A : Type 0} where
  caught-eq-ok : (q r : Result A) → caught q ≡ ok r → q ≡ r
  caught-eq-ok (ok a) r h = ok_injective h
  caught-eq-ok (err e) r h = ok_injective h
  caught-eq-ok (fault x) r h = absurd (cc)

module _ {S A : Type 0} where
  -- A caught result is the result of the call.
  pub attempt-parts :
      (m : Prog S A) (s : S) {r : Result A} {t : S} → attempt m s ≡ (ok r, t) → m s ≡ (r, t)
  unfolding attempt
  attempt-parts m s {r} h =
      let same : (m s).0 ≡ r = caught-eq-ok (m s).0 r (λ i. (h i).0) in λ i. (same i, (h i).1)

module _ {A B : Type 0} where
  pub settle-eq-ok : (r : Result A) (c : Result B) {a : A} → settle r c ≡ ok a → r ≡ ok a
  settle-eq-ok r (ok b) h = h
  settle-eq-ok r (err e) h = h
  settle-eq-ok r (fault x) h = absurd (cc)

module _ {S A B : Type 0} (cleanup : Prog S B) where
  abbrev deferred : Result A → S → Result A × S
  deferred (ok a) s = (ok a, s)
  deferred (err e) s = (settle (err e) (cleanup s).0, (cleanup s).1)
  deferred (fault x) s = (settle (fault x) (cleanup s).0, (cleanup s).1)

  deferred-eq-ok :
      (r : Result A) (s : S) {a : A} {t : S} → deferred r s ≡ (ok a, t) → (r ≡ ok a) × (s ≡ t)
  deferred-eq-ok (ok b) s h = ((λ i. (h i).0), (λ i. (h i).1))
  deferred-eq-ok (err e) s {a} h =
      let k : err e ≡ ok a = settle-eq-ok (err e) (cleanup s).0 (λ i. (h i).0) in absurd (cc)
  deferred-eq-ok (fault x) s {a} h =
      let k : fault x ≡ ok a = settle-eq-ok (fault x) (cleanup s).0 (λ i. (h i).0) in absurd (cc)

  unless_ok-deferred :
      (m : Prog S A) (s : S) (r : Result A)
      → (m s).0 ≡ r
      → unless_ok m cleanup s ≡ deferred r (m s).1
  unfolding unless_ok
  unless_ok-deferred m s (ok a) h = rw (h, unless_ok)
  unless_ok-deferred m s (err e) h = rw (h, unless_ok)
  unless_ok-deferred m s (fault x) h = rw (h, unless_ok)

  -- A call with a deferred clean-up that succeeds is the call itself.
  pub unless_ok-eq-ok :
      (m : Prog S A) (s : S) {a : A} {t : S} → unless_ok m cleanup s ≡ (ok a, t) → m s ≡ (ok a, t)
  unless_ok-eq-ok m s h =
      let (r, e) = deferred-eq-ok (m s).0 (m s).1 (sym (unless_ok-deferred m s _ refl) ∙ h) in
      λ i. (r i, e i)
