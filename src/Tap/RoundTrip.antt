-- ===== src/Tap/RoundTrip.antt =====
-- Headers and keys come back as they were written.
use virtlet.Prelude.{
  ℕ, zero, suc, ◌+◌, ◌^◌, ◌<◌, ◌≡◌, refl, ap, ◌∙◌, Str, true, Option, none, some, [], ◌∷◌, ◌++◌,
  leb, length, take, length-append, take-append, drop-append, append_assoc, length-drop, arith,
}
use virtlet.Tap.Header.{
  FdHeader, got, is_space, trim_left, trim_right, trim_space, get_key, pad, fd_key, key_size, be32,
  read32, read8, read_bytes, read_fields, encode_header, read_header, ◌>>=◌,
}

-- Every field fits its type: 32 bits, 8 bits, 64 bytes.
pub record IsWellSized (h : FdHeader) : Type 0 where
  pub magic : h.magic < 2 ^ 32
  pub command : h.command < 2 ^ 8
  pub data_size : h.data_size < 2 ^ 32
  pub oob_size : h.oob_size < 2 ^ 32
  pub key : length h.key ≡ key_size

pub read32-be32 : (n : ℕ) (s : Str) → n < 2 ^ 32 → read32 (be32 n ++ s) ≡ some (n, s)
unfolding read32 be32
read32-be32 n s h = ground arith

pub read_bytes-append : (k s : Str) (n : ℕ) → length k ≡ n → read_bytes n (k ++ s) ≡ some (k, s)
unfolding read_bytes
read_bytes-append k s n h =
    let within : leb n (length (k ++ s)) ≡ true = ground (arith, length-append k s) in
    rw within (rw (← h) (rw (take-append, drop-append)))

read_fields-written :
    (h : FdHeader) (rest : Str)
    → IsWellSized h
    → read_fields
        (be32 h.magic ++ (h.command ∷ (be32 h.data_size ++ (be32 h.oob_size ++ (h.key ++ rest)))))
      ≡ some (h, rest)
unfolding read_fields read8
read_fields-written h rest fits = rw (
  read32-be32 h.magic _ fits.magic,
  read32-be32 h.data_size _ fits.data_size,
  read32-be32 h.oob_size _ fits.oob_size,
  read_bytes-append h.key rest key_size fits.key,
)

read_header-fields :
    (c : ℕ) (s : Str) (h : FdHeader) (rest : Str)
    → read_fields (c ∷ s) ≡ some (h, rest)
    → read_header (c ∷ s) ≡ got h rest
unfolding read_header
read_header-fields c s h rest e = rw (e, read_header)

-- Reading a header gives back the header that was written, and leaves whatever follows it.
pub read_header-encode_header :
    (h : FdHeader) (rest : Str) → IsWellSized h → read_header (encode_header h ++ rest) ≡ got h rest
unfolding encode_header be32
read_header-encode_header h rest fits =
    read_header-fields _ _ h rest
      (ap read_fields (simp append_assoc) ∙ read_fields-written h rest fits)

read32-length : (s : Str) {n : ℕ} {t : Str} → read32 s ≡ some (n, t) → length s ≡ 4 + length t
unfolding read32
read32-length (a ∷ b ∷ c ∷ d ∷ s) h = ground arith
read32-length [] h = absurd (cc)
read32-length (a ∷ []) h = absurd (cc)
read32-length (a ∷ b ∷ []) h = absurd (cc)
read32-length (a ∷ b ∷ c ∷ []) h = absurd (cc)

read_bytes-length :
    (n : ℕ) (s : Str) {k t : Str} → read_bytes n s ≡ some (k, t) → length s ≡ n + length t
unfolding read_bytes
read_bytes-length n s h = ground (arith, length-drop n s)

read8-length : (s : Str) {n : ℕ} {t : Str} → read8 s ≡ some (n, t) → length s ≡ suc (length t)
unfolding read8
read8-length [] h = absurd (cc)
read8-length (c ∷ s) h = ground arith

>>=-eq-some :
    {A B : Type 0} (m : Option A) (f : A → Option B) {b : B}
    → (m >>= f) ≡ some b
    → (a : A) × (m ≡ some a) × (f a ≡ some b)
>>=-eq-some (some a) f h = (a, refl, h)
>>=-eq-some none f h = absurd (cc)

read_fields-length :
    (s : Str) {h : FdHeader} {rest : Str}
    → read_fields s ≡ some (h, rest)
    → length s ≡ 77 + length rest
unfolding read_fields
read_fields-length s e =
    let ((magic, s1), e1, r1) = >>=-eq-some (read32 s) _ e in
    let ((command, s2), e2, r2) = >>=-eq-some (read8 s1) _ r1 in
    let ((data_size, s3), e3, r3) = >>=-eq-some (read32 s2) _ r2 in
    let ((oob_size, s4), e4, r4) = >>=-eq-some (read32 s3) _ r3 in
    let ((key, s5), e5, r5) = >>=-eq-some (read_bytes key_size s4) _ r4 in
    ground (
      arith,
      read32-length s e1,
      read8-length s1 e2,
      read32-length s2 e3,
      read32-length s3 e4,
      read_bytes-length key_size s4 e5,
      r5,
    )

-- A header takes 77 bytes.
pub read_header-length :
    (s : Str) {h : FdHeader} {rest : Str} → read_header s ≡ got h rest → length s ≡ 77 + length rest
unfolding read_header
read_header-length [] e = absurd (cc)
read_header-length (c ∷ s) {h} {rest} e =
    ground (arith, read_fields-length (c ∷ s) {h = h} {rest = rest})

trim_right-spaces : (n : ℕ) → trim_right (pad n []) ≡ []
unfolding trim_right pad is_space
trim_right-spaces zero = refl
trim_right-spaces (suc n) = rw (trim_right-spaces n)

-- What fills a key up is trimmed away again.
trim_right-pad : (n : ℕ) (s : Str) → trim_right (pad n s) ≡ trim_right (take n s)
unfolding trim_right pad is_space
trim_right-pad zero s = refl
trim_right-pad (suc n) [] = rw (trim_right-spaces n)
trim_right-pad (suc n) (c ∷ s) = rw (trim_right-pad n s)

-- The key that the server reads is the first 64 bytes of the client's, with no space around them.
pub get_key-fd_key :
    (h : FdHeader) (key : Str) → h.key ≡ fd_key key → get_key h ≡ trim_space (take key_size key)
unfolding get_key fd_key trim_space
get_key-fd_key h key e = rw e (ap trim_left (trim_right-pad key_size key))
