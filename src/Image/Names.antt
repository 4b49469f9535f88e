-- ===== src/Image/Names.antt =====
-- Image names, references and digests.
use virtlet.Prelude.{
  ℕ, Str, str_eq, Bool, not, ◌&&◌, Option, none, some, [], ◌∷◌, ◌==◌, if◌then◌else◌,
}
use virtlet.Result.{Result}

-- digest.Digest: whether the algorithm is SHA256, and the rest
pub record Digest : Type 0 where
  pub sha256 : Bool
  pub hex : Str

abbrev pub digest_eq : Digest → Digest → Bool
digest_eq d e = (if d.sha256 then e.sha256 else not e.sha256) && str_eq d.hex e.hex

-- A parsed reference: its name and digest, where it is a reference.Named and a reference.Digested.
pub record Reference : Type 0 where
  pub name : Option Str
  pub digest : Option Digest

-- The packages reference and digest.
pub record References : Type 0 where
  -- reference.Parse, and digest.Parse, which refuses what is no well-formed digest
  pub parse : Str → Option Reference
  pub parse_digest : Str → Option Digest
  -- Digest.Validate
  pub is_valid : Digest → Bool
  -- digest.FromReader
  pub from_bytes : Str → Digest
  -- reference.WithName, WithDigest and String
  pub with_digest : Str → Digest → Result Str

-- '/' and '%'
abbrev slash : ℕ
slash = 47

abbrev percent : ℕ
percent = 37

-- strings.Replace(s, old, new, -1), of one byte
unfoldable pub replace : ℕ → ℕ → Str → Str
replace old new [] = []
replace old new (c ∷ s) = (if c == old then new else c) ∷ replace old new s

module _ (refs : References) where
  unfoldable pub split_image_name : Str → Str × Option Digest
  split_image_name image = elim (refs.parse image) [
    | none ↦ (image, none)
    | some r ↦ elim r.name [ none ↦ (image, none) | some name ↦ (name, r.digest) ]
  ]

  abbrev sha256_hex : Digest → Str
  sha256_hex d = if d.sha256 then d.hex else []

  -- The empty string is no digest.
  unfoldable pub get_hex_digest : Str → Str
  get_hex_digest spec = elim (refs.parse_digest spec) [
    | some d ↦ sha256_hex d
    | none ↦ elim (refs.parse spec) [
      | none ↦ []
      | some r ↦ elim r.digest [ none ↦ [] | some d ↦ sha256_hex d ]
    ]
  ]

  -- The link's name in the link directory.
  unfoldable pub link_file_name : Str → Str
  link_file_name image = replace slash percent (split_image_name image).0

abbrev pub image_name : Str → Str
image_name link = replace percent slash link
