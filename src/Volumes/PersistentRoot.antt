-- ===== src/Volumes/PersistentRoot.antt =====
-- persistentroot_volumesource.go: a root volume on a block device, which survives its pod.
use virtlet.Prelude.{
  ℕ, ◌-◌, ◌*◌, ◌≤◌, Str, codes, Bool, true, false, not, Option, none, some, List, [], ◌∷◌, ◌++◌,
  length, ◌==◌, if◌then◌else◌, ◌≡◌,
}
use virtlet.Result.{Result, ok, err, fault, errorf, panic}
use virtlet.Prog.{Prog, pure, crash, lift, attempt, annotate, unless_err, ◌>>=◌, ◌>>◌}
use virtlet.Image.Names.{Digest}
use virtlet.Blockdev.Defs.{
  DevOs, block_dev_size_in_sectors, ensure_dev_header_matches, hash_size, map_device, sector_size,
  unmap_device,
}

-- What the volume calls besides the device handler, on the same state.
pub record RootOs (os : DevOs) : Type 0 where
  -- ImageManager().GetImagePathDigestAndVirtualSize
  pub image_info : Str → Prog os.D (Str × Option Digest × ℕ)
  -- hex.DecodeString
  pub hex_decode : Str → Option Str
  -- unix.Sync, Open, Fsync and Close
  pub sync : os.D → os.D
  pub open_fd : Str → Prog os.D ℕ
  pub fsync : ℕ → Prog os.D (Unit {0})
  pub close_fd : ℕ → Prog os.D (Unit {0})
  -- StorageConnection().PutFiles
  pub put_files : Str → List (Str × Str) → Prog os.D (Unit {0})

-- persistentRootVolume, with what it reads of the VM's config
pub record PersistentRoot : Type 0 where
  pub host_path : Str
  pub image : Str
  pub domain_uuid : Str
  -- none where the annotations are nil
  pub injected_files : Option (List (Str × Str))

unfoldable pub dm_name : PersistentRoot → Str
dm_name v = codes "virtlet-dm-" ++ v.domain_uuid

unfoldable pub dm_path : PersistentRoot → Str
dm_path v = codes "/dev/mapper/" ++ dm_name v

module _ (os : DevOs) (h : RootOs os) where
  open os use {D}

  unfoldable pub sync_each : List Str → Prog D (Unit {0})
  sync_each [] = pure tt
  sync_each (p ∷ ps) = do
    fd ← h.open_fd p
    unless_err (h.fsync fd) (attempt (h.close_fd fd))
    h.close_fd fd
    sync_each ps

  unfoldable pub sync_files : List Str → Prog D (Unit {0})
  sync_files paths d = sync_each paths (h.sync d)

  unfoldable pub convert : Str → Str → Prog D Str
  convert image_path target =
      os.run
        (codes "qemu-img" ∷ codes "convert" ∷ codes "-O" ∷ codes "raw" ∷ image_path ∷ target ∷ [])
        []

  -- The results of syncFiles are dropped.
  unfoldable pub copy_image_to_dev : PersistentRoot → Str → Prog D (Unit {0})
  unfolding sync_files sync_each dm_path dm_name convert
  copy_image_to_dev v image_path = do
    _ ← attempt (sync_files (image_path ∷ v.host_path ∷ dm_path v ∷ []))
    _ ← convert image_path (dm_path v)
    _ ← attempt (sync_files (dm_path v ∷ []))
    pure tt

  abbrev pub sized_hash : Option Str → Result Str
  sized_hash none = err (errorf "bad digest hex")
  sized_hash (some hash) =
      if length hash == hash_size then ok hash else err (errorf "bad digest size")

  -- The image's hash; the methods of an empty digest panic.
  unfoldable pub image_hash : Option Digest → Result Str
  image_hash none = fault panic
  image_hash (some d) =
      if not d.sha256
      then err (errorf "unsupported digest algorithm")
      else sized_hash (h.hex_decode d.hex)

  abbrev pub copy_unless : Bool → PersistentRoot → Str → Prog D (Unit {0})
  copy_unless true v image_path = pure tt
  copy_unless false v image_path = copy_image_to_dev v image_path

  unfoldable pub inject_files : PersistentRoot → Prog D (Unit {0})
  unfolding dm_path dm_name
  inject_files v = elim v.injected_files [
    | none ↦ crash panic
    | some [] ↦ pure tt
    | some (f ∷ fs) ↦ annotate "error adding files to rootfs" (h.put_files (dm_path v) (f ∷ fs))
  ]

  -- The disk is the block device at the path that is returned, in the raw format.
  unfoldable pub setup : PersistentRoot → Prog D Str
  unfolding image_hash copy_image_to_dev inject_files
  setup v = do
    info ← h.image_info v.image
    hash ← lift (image_hash info.1)
    matches ← ensure_dev_header_matches os v.host_path hash
    map_device os v.host_path (dm_name v) info.2
    copy_unless matches v info.0
    inject_files v
    pure (dm_path v)

  unfoldable pub teardown : PersistentRoot → Prog D (Unit {0})
  unfolding dm_name
  teardown v = unmap_device os (dm_name v)

  -- The files that are written to disk before the image is converted.
  abbrev pub touched : PersistentRoot → Str → List Str
  touched v image_path = image_path ∷ v.host_path ∷ dm_path v ∷ []

  -- The digest is a SHA256 one, and stands for this hash.
  abbrev pub IsHash : Option Digest → Str → Type 0
  IsHash d hash =
      (g : Digest) × (d ≡ some g)
      × (g.sha256 ≡ true)
      × (h.hex_decode g.hex ≡ some hash)
      × (length hash ≡ hash_size)

  -- The image is on the device: the header said so, or it was converted onto the mapped device.
  pub record SetUp (v : PersistentRoot) (before after : D) : Type 0 where
    pub image_path : Str
    pub digest : Option Digest
    pub size : ℕ
    pub hash : Str
    pub found : (h.image_info v.image before).0 ≡ ok (image_path, digest, size)
    pub hashed : IsHash digest hash
    pub matches : Bool
    pub claimed : D
    pub checked :
        ensure_dev_header_matches os v.host_path hash (h.image_info v.image before).1
        ≡ (ok matches, claimed)
    pub sectors : ℕ
    pub measured : (block_dev_size_in_sectors os v.host_path claimed).0 ≡ ok sectors
    pub room : size ≤ (sectors - 1) * sector_size
    pub mapped : D
    pub maps : map_device os v.host_path (dm_name v) size claimed ≡ (ok tt, mapped)
    pub copied : D
    -- What is on the device already is left alone.
    pub spared : matches ≡ true → copied ≡ mapped
    pub converted :
        matches ≡ false
        → (out : Str) × (c : D) × (convert image_path
              (dm_path v)
              (sync_files (touched v image_path) mapped).1
            ≡ (ok out, c))
          × (copied ≡ (sync_files (dm_path v ∷ []) c).1)
    pub injected : inject_files v copied ≡ (ok tt, after)
