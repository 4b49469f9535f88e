-- ===== src/Volumes/Root.antt =====
-- root_volumesource.go and block_volumesource.go: root volumes in the storage pool, the other
-- block devices of a pod, and which of the devices is the root.
use virtlet.Prelude.{
  ℕ, Str, codes, str_eq, Bool, Option, none, some, List, [], ◌∷◌, ◌++◌, ltb, if◌then◌else◌, ◌≤◌,
  ◌≡◌, arith,
}
use virtlet.Prelude.Int.{pos, negsuc}
use virtlet.Result.{panic}
use virtlet.Prog.{Prog, pure, crash, annotate, ◌>>=◌, ◌>>◌}
use virtlet.Image.Names.{Digest}
use virtlet.Types.Annotations.{VirtletAnnotations}
use virtlet.Types.{VmConfig, VmVolumeDevice}

-- IsRoot
unfoldable pub is_root : VmVolumeDevice → Bool
is_root dev = str_eq dev.device_path (codes "/")

-- RootVolumeDevice, over the devices of the config
unfoldable pub root_volume_device : List VmVolumeDevice → Option VmVolumeDevice
root_volume_device [] = none
root_volume_device (dev ∷ devs) =
    let rest = root_volume_device devs in if is_root dev then some dev else rest

-- persistentRootVolume of a device, or rootVolume
pub data RootVolume : Type 0 where
  persistent : VmVolumeDevice → RootVolume
  in_pool : RootVolume

unfoldable pub get_root_volume : VmConfig → RootVolume
unfolding root_volume_device is_root
get_root_volume c = elim (root_volume_device c.volume_devices) [
  | none ↦ in_pool
  | some dev ↦ persistent dev
]

-- The devices for which GetBlockVolumes makes volumes.
unfoldable pub get_block_volumes : List VmVolumeDevice → List VmVolumeDevice
get_block_volumes [] = []
get_block_volumes (dev ∷ devs) =
    let rest = get_block_volumes devs in if is_root dev then rest else dev ∷ rest

-- What CreateStorageVol is asked for: a qcow2 file with no blocks of its own yet.
pub record NewVolume : Type 0 where
  pub name : Str
  pub capacity : ℕ
  pub backing_path : Str

-- The owner of the volumes: the image manager, the storage pool and its connection.
pub record Owner : Type 1 where
  pub D : Type 0
  pub StoragePool : Type 0
  pub StorageVolume : Type 0
  pub image_info : Str → Prog D (Str × Option Digest × ℕ)
  pub storage_pool : Prog D StoragePool
  pub create_storage_vol : StoragePool → NewVolume → Prog D StorageVolume
  pub remove_volume_by_name : StoragePool → Str → Prog D (Unit {0})
  pub volume_path : StorageVolume → Prog D Str
  pub put_files : Str → List (Str × Str) → Prog D (Unit {0})
  pub eval_symlinks : Str → Prog D Str

unfoldable pub volume_name : VmConfig → Str
volume_name c = codes "virtlet_root_" ++ c.domain_uuid

-- The size that the annotations ask for, where it is above the image's.
unfoldable pub root_size : Option VirtletAnnotations → ℕ → ℕ
root_size none n = n
root_size (some a) n = elim a.root_volume_size [ pos k ↦ if ltb n k then k else n | negsuc k ↦ n ]

module _ (o : Owner) where
  open o use {D}

  unfoldable pub create_volume : VmConfig → Prog D o.StorageVolume
  unfolding volume_name root_size
  create_volume c = do
    info ← o.image_info c.image
    pool ← o.storage_pool
    o.create_storage_vol pool (record {
      name = volume_name c;
      capacity = root_size c.parsed_annotations info.2;
      backing_path = info.0;
    })

  -- Annotations that are nil are dereferenced.
  unfoldable pub inject : VmConfig → Str → Prog D (Unit {0})
  inject c path = elim c.parsed_annotations [
    | none ↦ crash panic
    | some a ↦ elim a.injected_files [
      | [] ↦ pure tt
      | f ∷ fs ↦ annotate "error adding files to rootfs" (o.put_files path (f ∷ fs))
    ]
  ]

  -- The disk is the file at the path that is returned, in the qcow2 format.
  unfoldable pub setup : VmConfig → Prog D Str
  unfolding create_volume inject
  setup c = do
    vol ← create_volume c
    path ← annotate "error getting root volume path" (o.volume_path vol)
    inject c path
    pure path

  unfoldable pub teardown : VmConfig → Prog D (Unit {0})
  unfolding volume_name
  teardown c = do pool ← o.storage_pool; o.remove_volume_by_name pool (volume_name c)

  -- Setup of a block volume: the disk is the device itself, in the raw format.
  unfoldable pub setup_block : VmVolumeDevice → Prog D Str
  setup_block dev = o.eval_symlinks dev.host_path

-- A root volume holds its image and what the annotations ask for.
pub root_size-bounds :
    (a : VirtletAnnotations) (k n : ℕ)
    → a.root_volume_size ≡ pos k
    → (n ≤ root_size (some a) n) × (k ≤ root_size (some a) n)
unfolding root_size
root_size-bounds a k n is = rw is (ground arith)
