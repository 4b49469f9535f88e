-- ===== src/Blockdev/Defs.antt =====
-- blockdev.go: the header of a device, and the logical device behind the first sector.
use virtlet.Prelude.{
  ℕ, ◌+◌, ◌-◌, ◌*◌, ◌/◌, ◌%◌, ◌^◌, Str, codes, str_eq, has_prefix, Bool, true, false, not, ◌&&◌,
  Option, none, some, List, [], ◌∷◌, ◌++◌, ltb, ◌==◌, if◌then◌else◌,
}
use virtlet.Result.{Result, ok, err, errorf}
use virtlet.Prog.{Prog, pure, raise, lift, attempt, annotate, unless_err, ◌>>=◌, ◌>>◌}
use virtlet.Disk.Format.{decimal}
use virtlet.Tap.Header.{be32, read32, read_bytes}

abbrev pub rootfs_magic : ℕ
rootfs_magic = 0x263dbe52ba576702

abbrev pub metadata_version : ℕ
metadata_version = 1

abbrev pub sector_size : ℕ
sector_size = 512

abbrev pub logical_device_prefix : Str
logical_device_prefix = codes "virtlet-dm-"

-- sha256.Size, and the size of a header
abbrev pub hash_size : ℕ
hash_size = 32

abbrev pub header_size : ℕ
header_size = 42

-- virtletRootfsHeader
pub record RootfsHeader : Type 0 where
  pub magic : ℕ
  pub version : ℕ
  pub image_hash : Str

unfoldable pub be64 : ℕ → Str
be64 n = be32 (n / 2 ^ 32) ++ be32 (n % 2 ^ 32)

unfoldable pub be16 : ℕ → Str
be16 n = (n / 2 ^ 8 % 256) ∷ (n % 256) ∷ []

-- binary.Write of a header
unfoldable pub encode : RootfsHeader → Str
unfolding be64 be16
encode h = be64 h.magic ++ (be16 h.version ++ h.image_hash)

abbrev pub with_rest : ℕ → Option (ℕ × Str) → Option (ℕ × Str)
with_rest high none = none
with_rest high (some (low, s)) = some (high * 2 ^ 32 + low, s)

unfoldable pub read64 : Str → Option (ℕ × Str)
read64 s = elim (read32 s) [ none ↦ none | some (high, t) ↦ with_rest high (read32 t) ]

unfoldable pub read16 : Str → Option (ℕ × Str)
read16 (a ∷ b ∷ s) = some (a * 2 ^ 8 + b, s)
read16 _ = none

abbrev pub hashed : ℕ → ℕ → Option (Str × Str) → Option RootfsHeader
hashed magic version none = none
hashed magic version (some (hash, rest)) =
    some (record { magic = magic; version = version; image_hash = hash })

abbrev pub versioned : ℕ → Option (ℕ × Str) → Option RootfsHeader
versioned magic none = none
versioned magic (some (version, s)) = hashed magic version (read_bytes hash_size s)

-- binary.Read of a header
unfoldable pub decode : Str → Option RootfsHeader
decode s = elim (read64 s) [ none ↦ none | some (magic, t) ↦ versioned magic (read16 t) ]

-- Files of package os, the commander, and filepath.EvalSymlinks.
pub record DevOs : Type 1 where
  pub D : Type 0
  -- os.OpenFile of a device, io.ReadFull of so many bytes from its start, Seek to the start, a
  -- write at the start, and Close
  pub open_device : Str → Prog D (Unit {0})
  pub read_full : ℕ → Str → Prog D Str
  pub seek_start : Str → Prog D (Unit {0})
  pub write_start : Str → Str → Prog D (Unit {0})
  pub close : Str → Prog D (Unit {0})
  -- a command with its arguments, its standard input and its output
  pub run : List Str → Str → Prog D Str
  pub eval_symlinks : Str → Prog D Str
  -- strconv.ParseUint(strings.TrimSpace(s), 10, 64)
  pub parse_uint : Str → Option ℕ

abbrev pub or_error : {A : Type 0} → Option A → Result A
or_error none = err (errorf "unexpected EOF")
or_error (some a) = ok a

-- The sectors that an image needs, in 64 bits: one for the metadata, and its own.
unfoldable pub min_sectors : ℕ → ℕ
min_sectors size = (((size + sector_size - 1) % 2 ^ 64) / sector_size + 1) % 2 ^ 64

module _ (os : DevOs) where
  open os use {D}

  unfoldable pub header_of : Str → RootfsHeader
  header_of hash = record { magic = rootfs_magic; version = metadata_version; image_hash = hash }

  unfoldable pub is_for : RootfsHeader → Str → Bool
  is_for h hash = (h.magic == rootfs_magic) && str_eq h.image_hash hash

  -- The switch: a header of another image is replaced.
  unfoldable pub claim : Str → Str → RootfsHeader → Prog D Bool
  unfolding is_for header_of
  claim path hash h =
      if not (is_for h hash)
      then (do
        annotate "seek" (os.seek_start path)
        annotate "writing rootfs header" (os.write_start path (encode (header_of hash)))
        pure false)
      else if not (h.version == metadata_version)
      then raise (errorf "unsupported virtlet root device metadata version")
      else pure true

  unfoldable pub check_header : Str → Str → Prog D Bool
  unfolding claim
  check_header path hash = do
    bytes ← annotate "reading rootfs header" (os.read_full header_size path)
    h ← lift (or_error (decode bytes))
    matches ← claim path hash h
    annotate "error closing rootfs device" (os.close path)
    pure matches

  -- The deferred function closes a file that is still open; its error is dropped.
  unfoldable pub close_quietly : Str → Prog D (Unit {0})
  close_quietly path = do _ ← attempt (os.close path); pure tt

  unfoldable pub ensure_dev_header_matches : Str → Str → Prog D Bool
  unfolding check_header close_quietly
  ensure_dev_header_matches path hash = do
    annotate "open" (os.open_device path)
    unless_err (check_header path hash) (close_quietly path)

  unfoldable pub block_dev_size_in_sectors : Str → Prog D ℕ
  block_dev_size_in_sectors path = do
    out ← os.run (codes "blockdev" ∷ codes "--getsz" ∷ path ∷ []) []
    elim (os.parse_uint out) [
      | none ↦ raise (errorf "bad size value returned by blockdev")
      | some n ↦ pure n
    ]

  abbrev pub dm_table : ℕ → Str → Str
  dm_table n host_path =
      codes "0 " ++ (decimal (n - 1) ++ (codes " linear " ++ (host_path ++ codes " 1\n")))

  -- The device mapper gets the sectors from 1 on.
  unfoldable pub create_mapping : Str → Str → ℕ → Prog D (Unit {0})
  create_mapping path dm_name n = do
    host_path ← os.eval_symlinks path
    _ ← os.run (codes "dmsetup" ∷ codes "create" ∷ dm_name ∷ []) (dm_table n host_path)
    pure tt

  unfoldable pub map_device : Str → Str → ℕ → Prog D (Unit {0})
  unfolding block_dev_size_in_sectors min_sectors create_mapping
  map_device path dm_name size =
      if not (has_prefix dm_name logical_device_prefix)
      then raise (errorf "bad logical device name")
      else (do
        n ← block_dev_size_in_sectors path
        if ltb n (min_sectors size)
            then raise (errorf "block device too small for the image")
            else create_mapping path dm_name n)

  unfoldable pub unmap_device : Str → Prog D (Unit {0})
  unmap_device dm_name = do _ ← os.run (codes "dmsetup" ∷ codes "remove" ∷ dm_name ∷ []) []; pure tt
