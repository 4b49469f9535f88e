-- ===== src/Blockdev/Header.antt =====
-- blockdev.go: a header is read as it was written.
use virtlet.Prelude.{
  ℕ, ◌+◌, ◌*◌, ◌/◌, ◌%◌, ◌^◌, ◌<◌, Str, some, [], ◌++◌, length, append_assoc, append-nil, ◌≡◌, sym,
  ap, ◌∙◌, arith,
}
use virtlet.Tap.Header.{be32, read_bytes}
use virtlet.Tap.RoundTrip.{read32-be32, read_bytes-append}
use virtlet.Blockdev.Defs.{
  RootfsHeader, be16, be64, decode, encode, hash_size, header_size, read16, read64,
}

pub record IsWellSized (h : RootfsHeader) : Type 0 where
  pub magic : h.magic < 2 ^ 64
  pub version : h.version < 2 ^ 16
  pub hash : length h.image_hash ≡ hash_size

halves : (n : ℕ) → n / 2 ^ 32 * 2 ^ 32 + n % 2 ^ 32 ≡ n
halves n = omega arith

read64-be64 : (n : ℕ) (s : Str) → n < 2 ^ 64 → read64 (be64 n ++ s) ≡ some (n, s)
unfolding read64 be64
read64-be64 n s small =
    let high : n / 2 ^ 32 < 2 ^ 32 = omega arith in
    let low : n % 2 ^ 32 < 2 ^ 32 = omega arith in
    ap read64 (append_assoc (be32 (n / 2 ^ 32)) (be32 (n % 2 ^ 32)) s)
    ∙ rw
        (
          read64,
          read32-be32 (n / 2 ^ 32) (be32 (n % 2 ^ 32) ++ s) high,
          read32-be32 (n % 2 ^ 32) s low,
        )
        (ap (λ k. some (k, s)) (halves n))

read16-be16 : (n : ℕ) (s : Str) → n < 2 ^ 16 → read16 (be16 n ++ s) ≡ some (n, s)
unfolding read16 be16
read16-be16 n s small = ground arith

pub decode-encode : (h : RootfsHeader) → IsWellSized h → decode (encode h) ≡ some h
unfolding encode decode
decode-encode h fits =
    let hash : read_bytes hash_size h.image_hash ≡ some (h.image_hash, []) =
      ap (read_bytes hash_size) (sym (append-nil h.image_hash))
      ∙ read_bytes-append h.image_hash [] hash_size fits.hash in
    rw (
      decode,
      read64-be64 h.magic (be16 h.version ++ h.image_hash) fits.magic,
      read16-be16 h.version h.image_hash fits.version,
      hash,
    )

pub length-encode :
    (h : RootfsHeader) → length h.image_hash ≡ hash_size → length (encode h) ≡ header_size
unfolding encode be64 be16 be32
length-encode h size = ground arith
