-- ===== src/Blockdev/Claimed.antt =====
-- blockdev.go: once the header of a device was checked, it is the one for the image.
use virtlet.Prelude.{
  ℕ, Str, str_eq_refl, Bool, Bool-cases, true, inl, inr, Option, none, some, ◌++◌, take,
  take-append, length, ◌==◌, ◌≡◌, refl, sym, ap, ◌∙◌, arith,
}
use virtlet.Result.{ok, err, errorf, ok_injective}
use virtlet.Prog.Laws.{annotate-eq-ok, stepping}
use virtlet.Prog.Failing.{unless_err-eq-ok}
use virtlet.Tool.State.Halves.{lift-parts}
use virtlet.Blockdev.Defs.{
  DevOs, RootfsHeader, check_header, claim, decode, encode, ensure_dev_header_matches, hash_size,
  header_of, header_size, is_for, metadata_version, or_error,
}
use virtlet.Blockdev.Header.{decode-encode, length-encode}

some_injective : {A : Type 0} {a b : A} → some a ≡ some b → a ≡ b
some_injective e = ground arith

-- What is read from the start of a device: what was written there, or what was there before.
pub record DevLaws (os : DevOs) (content : Str → os.D → Str) : Type 0 where
  pub open_keeps :
      (p q : Str) (d d' : os.D) → os.open_device p d ≡ (ok tt, d') → content q d' ≡ content q d
  pub read_start :
      (p : Str) (n : ℕ) (d d' : os.D) (s : Str)
      → os.read_full n p d ≡ (ok s, d')
      → (s ≡ take n (content p d)) × ((q : Str) → content q d' ≡ content q d)
  pub seek_keeps :
      (p q : Str) (d d' : os.D) → os.seek_start p d ≡ (ok tt, d') → content q d' ≡ content q d
  pub close_keeps :
      (p q : Str) (d d' : os.D) → os.close p d ≡ (ok tt, d') → content q d' ≡ content q d
  pub written :
      (p s : Str) (d d' : os.D)
      → os.write_start p s d ≡ (ok tt, d')
      → (rest : Str) × (content p d' ≡ s ++ rest)

module _ (os : DevOs) (content : Str → os.D → Str) (laws : DevLaws os content) where
  open os use {D}

  -- The device at `path` has a header for the image.
  abbrev pub IsClaimed : Str → Str → D → Type 0
  IsClaimed path hash d =
      (h : RootfsHeader) × (decode (take header_size (content path d)) ≡ some h)
      × (is_for os h hash ≡ true)
      × ((h.version == metadata_version) ≡ true)

  header_of-is_for : (hash : Str) → is_for os (header_of os hash) hash ≡ true
  unfolding is_for header_of
  header_of-is_for hash = rw (str_eq_refl hash)

  written-IsClaimed :
      (path hash rest : Str) (d : D)
      → length hash ≡ hash_size
      → content path d ≡ encode (header_of os hash) ++ rest
      → IsClaimed path hash d
  unfolding header_of
  written-IsClaimed path hash rest d size is =
      let h = header_of os hash in
      let start : take header_size (content path d) ≡ encode h =
        ap (take header_size) is
        ∙ ap (λ n. take n (encode h ++ rest)) (sym (length-encode h size))
        ∙ take-append (encode h) rest in
      (
        h,
        ap decode start
            ∙ decode-encode h (record { magic = omega arith; version = omega arith; hash = size }),
        header_of-is_for hash,
        refl,
      )

  claim-IsClaimed :
      (path hash : Str) (h : RootfsHeader) (d d' : D) (b : Bool)
      → length hash ≡ hash_size
      → decode (take header_size (content path d)) ≡ some h
      → claim os path hash h d ≡ (ok b, d')
      → IsClaimed path hash d' × (b ≡ is_for os h hash)
  unfolding claim
  claim-IsClaimed path hash h d d' b size was run = elim (Bool-cases (is_for os h hash)) [
    | inr other ↦ stepping _ _ (rw other at run) λ u d1 sought rest.
        stepping _ _ rest λ w d2 written end.
          let (tail, is) =
            laws.written path (encode (header_of os hash)) d1 d2 (annotate-eq-ok _ _ d1 written) in
          let last : d2 ≡ d' = λ i. (end i).1 in
          (
            written-IsClaimed path hash tail d' size (ap (content path) (sym last) ∙ is),
            sym (ok_injective (λ i. (end i).0)) ∙ sym other,
          )
    | inl same ↦ elim (Bool-cases (h.version == metadata_version)) [
      | inr later ↦
          let k : err (errorf "unsupported virtlet root device metadata version") ≡ ok b =
            λ i. ((rw (same, later) at run) i).0 in
          absurd (cc)
      | inl current ↦
          let end : (ok true, d) ≡ (ok b, d') = rw (same, current) at run in
          (
            (
              h,
              ap (λ t. decode (take header_size (content path t))) (sym (λ i. (end i).1)) ∙ was,
              same,
              current,
            ),
            sym (ok_injective (λ i. (end i).0)) ∙ sym same,
          )
    ]
  ]

  or_error-some : {A : Type 0} (o : Option A) {a : A} → or_error o ≡ ok a → o ≡ some a
  or_error-some none {a} h = absurd (cc)
  or_error-some (some b) h = ap some (ok_injective h)

  -- What a check of the header found before, and what it has left.
  checked :
      (path hash : Str) (d d' : D) (b : Bool)
      → length hash ≡ hash_size
      → ensure_dev_header_matches os path hash d ≡ (ok b, d')
      → IsClaimed path hash d'
        × ((h : RootfsHeader) × (decode (take header_size (content path d)) ≡ some h)
            × (b ≡ is_for os h hash))
  unfolding ensure_dev_header_matches check_header
  checked path hash d d' b size run = stepping _ _ run λ u d1 opened body.
      stepping _ _ (unless_err-eq-ok _ _ d1 body) λ bytes d2 read run2.
        stepping _ _ run2 λ h d3 decoded run3. stepping _ _ run3 λ c d4 claimed run4.
          stepping _ _ run4 λ w d5 closed end.
            let opened' = laws.open_keeps path path d d1 (annotate-eq-ok _ _ d opened) in
            let (bytes_are, kept) =
              laws.read_start path header_size d1 d2 bytes (annotate-eq-ok _ _ d1 read) in
            let (some_h, same3) = lift-parts _ d2 decoded in
            let before : decode (take header_size (content path d1)) ≡ some h =
              ap decode (sym bytes_are) ∙ or_error-some (decode bytes) some_h in
            let now : decode (take header_size (content path d3)) ≡ some h =
              ap (λ s. decode (take header_size s)) (ap (content path) (sym same3) ∙ kept path)
              ∙ before in
            let ((h', is, mine, current), matched) =
              claim-IsClaimed path hash h d3 d4 c size now claimed in
            let last : content path d' ≡ content path d4 =
              ap (content path) (sym (λ i. (end i).1))
              ∙ laws.close_keeps path path d4 d5 (annotate-eq-ok _ _ d4 closed) in
            (
              (h', ap (λ s. decode (take header_size s)) last ∙ is, mine, current),
              (
                h,
                ap (λ s. decode (take header_size s)) (sym opened') ∙ before,
                sym (ok_injective (λ i. (end i).0)) ∙ matched,
              ),
            )

  -- After a check that has not failed the device has the header of the image, whatever happens
  -- to the image: as long as the header at the start of the device stays as it is, every later
  -- check for the same image that does not fail answers that the device holds it already.
  pub ensure_dev_header_matches-again :
      (path hash : Str) (d d' e e' : D) (b c : Bool)
      → length hash ≡ hash_size
      → ensure_dev_header_matches os path hash d ≡ (ok b, d')
      → take header_size (content path e) ≡ take header_size (content path d')
      → ensure_dev_header_matches os path hash e ≡ (ok c, e')
      → c ≡ true
  ensure_dev_header_matches-again path hash d d' e e' b c size first kept second =
      let ((h, is, mine, current), _) = checked path hash d d' b size first in
      let (_, (h', is', matched)) = checked path hash e e' c size second in
      let same : some h' ≡ some h = sym is' ∙ ap decode kept ∙ is in
      matched ∙ ap (λ (k : RootfsHeader). is_for os k hash) (some_injective same) ∙ mine
