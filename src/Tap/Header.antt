-- ===== src/Tap/Header.antt =====
-- fdHeader, as encoding/binary writes and reads it in big-endian order, and its key.
use virtlet.Prelude.{
  ℕ, zero, suc, ◌+◌, ◌*◌, ◌/◌, ◌%◌, ◌^◌, Str, Bool, true, false, ◌&&◌, ◌||◌, Option, none, some, [],
  ◌∷◌, ◌++◌, leb, ◌==◌, if◌then◌else◌, length, take, drop,
}

abbrev pub fd_magic : ℕ
fd_magic = 0x42424242

-- The commands; a response has the bit 0x80 set.
abbrev pub fd_add : ℕ
fd_add = 0

abbrev pub fd_release : ℕ
fd_release = 1

abbrev pub fd_get : ℕ
fd_get = 2

abbrev pub fd_recover : ℕ
fd_recover = 3

abbrev pub fd_error : ℕ
fd_error = 0xff

-- command | fdResponse, for the commands above
abbrev pub response_to : ℕ → ℕ
response_to command = command + 0x80

abbrev pub key_size : ℕ
key_size = 64

pub record FdHeader : Type 0 where
  pub magic : ℕ
  pub command : ℕ
  pub data_size : ℕ
  pub oob_size : ℕ
  pub key : Str

-- The ASCII white space of strings.TrimSpace; keys have no other.
unfoldable pub is_space : ℕ → Bool
is_space c = c == 32 || (leb 9 c && leb c 13)

unfoldable pub trim_left : Str → Str
trim_left [] = []
trim_left (c ∷ s) = let rest = trim_left s in if is_space c then rest else c ∷ s

abbrev is_nil : Str → Bool
is_nil [] = true
is_nil (c ∷ s) = false

unfoldable pub trim_right : Str → Str
trim_right [] = []
trim_right (c ∷ s) = let rest = trim_right s in if is_space c && is_nil rest then [] else c ∷ rest

unfoldable pub trim_space : Str → Str
trim_space s = trim_left (trim_right s)

unfoldable pub get_key : FdHeader → Str
get_key h = trim_space h.key

-- The first `n` bytes of the key, filled up with spaces.
unfoldable pub pad : ℕ → Str → Str
pad zero k = []
pad (suc n) [] = 32 ∷ pad n []
pad (suc n) (c ∷ k) = c ∷ pad n k

unfoldable pub fd_key : Str → Str
fd_key key = pad key_size key

unfoldable pub be32 : ℕ → Str
be32 n = (n / 2 ^ 24 % 256) ∷ (n / 2 ^ 16 % 256) ∷ (n / 2 ^ 8 % 256) ∷ (n % 256) ∷ []

-- binary.Write of a header
unfoldable pub encode_header : FdHeader → Str
encode_header h = be32 h.magic ++ (h.command ∷ (be32 h.data_size ++ (be32 h.oob_size ++ h.key)))

-- What binary.Read of a header finds: the end of the input, too few bytes, or a header.
pub data Read : Type 0 where
  eof short : Read
  got : FdHeader → Str → Read

-- A number and what follows it.
unfoldable pub read32 : Str → Option (ℕ × Str)
read32 (a ∷ b ∷ c ∷ d ∷ s) = some (a * 2 ^ 24 + b * 2 ^ 16 + c * 2 ^ 8 + d, s)
read32 _ = none

unfoldable pub read8 : Str → Option (ℕ × Str)
read8 [] = none
read8 (c ∷ s) = some (c, s)

unfoldable pub read_bytes : ℕ → Str → Option (Str × Str)
read_bytes n s = if leb n (length s) then some (take n s, drop n s) else none

infixl 5 ◌>>=◌
abbrev pub ◌>>=◌ : {A B : Type 0} → Option A → (A → Option B) → Option B
none >>= rest = none
some a >>= rest = rest a

unfoldable pub read_fields : Str → Option (FdHeader × Str)
read_fields s = do
  (magic, s1) ← read32 s
  (command, s2) ← read8 s1
  (data_size, s3) ← read32 s2
  (oob_size, s4) ← read32 s3
  (key, s5) ← read_bytes key_size s4
  some (
    record {
      magic = magic;
      command = command;
      data_size = data_size;
      oob_size = oob_size;
      key = key;
    },
    s5,
  )

unfoldable pub read_header : Str → Read
read_header [] = eof
read_header (c ∷ s) = elim (read_fields (c ∷ s)) [ none ↦ short | some (h, rest) ↦ got h rest ]
