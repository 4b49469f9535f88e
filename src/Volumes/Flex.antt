-- ===== src/Volumes/Flex.antt =====
-- qcow2_flexvolume.go, raw_flexvolume.go and volumes.go: volumes that flexvolume configs describe,
-- and the combination of the sources of volumes.
use virtlet.Prelude.{
  ℕ, Str, codes, str_eq, has_prefix, Bool, true, false, ◌||◌, Option, none, some, List, [], ◌∷◌,
  ◌++◌, if◌then◌else◌,
}
use virtlet.Result.{Result, ok, err, errorf}
use virtlet.Prog.{Prog, pure, lift, annotate, ◌>>=◌, ◌>>◌}
use virtlet.Types.{VmConfig}

abbrev pub default_capacity : ℕ
default_capacity = 1024

abbrev pub default_unit : Str
default_unit = codes "MB"

abbrev pub capacity_units : List Str
capacity_units =
    codes "B"
    ∷ codes "bytes"
    ∷ codes "KB"
    ∷ codes "K"
    ∷ codes "KiB"
    ∷ codes "MB"
    ∷ codes "M"
    ∷ codes "MiB"
    ∷ codes "GB"
    ∷ codes "G"
    ∷ codes "GiB"
    ∷ codes "TB"
    ∷ codes "T"
    ∷ codes "TiB"
    ∷ codes "PB"
    ∷ codes "P"
    ∷ codes "PiB"
    ∷ codes "EB"
    ∷ codes "E"
    ∷ codes "EiB"
    ∷ []

unfoldable pub is_unit : List Str → Str → Bool
is_unit [] unit = false
is_unit (item ∷ items) unit = str_eq item unit || is_unit items unit

unfoldable pub capacity_unit : ℕ → Str → Result (ℕ × Str)
unfolding is_unit
capacity_unit n [] = ok (n, default_unit)
capacity_unit n (c ∷ unit) =
    if is_unit capacity_units (c ∷ unit)
    then ok (n, c ∷ unit)
    else err (errorf "invalid capacity unit")

-- With the two submatches of the expression, and strconv.Atoi of its digits.
unfoldable pub parse_capacity_str :
    (Str → Option (Str × Str)) → (Str → Option ℕ) → Str → Result (ℕ × Str)
unfolding capacity_unit
parse_capacity_str submatches atoi [] = ok (default_capacity, default_unit)
parse_capacity_str submatches atoi (c ∷ s) = elim (submatches (c ∷ s)) [
  | none ↦ err (errorf "invalid capacity spec")
  | some (digits, unit) ↦ elim (atoi digits) [
    | none ↦ err (errorf "invalid capacity spec")
    | some n ↦ capacity_unit n unit
  ]
]

pub record Qcow2Options : Type 0 where
  pub capacity : Str
  pub uuid : Str

pub record Qcow2Volume : Type 0 where
  pub domain_uuid : Str
  pub capacity : ℕ
  pub capacity_unit : Str
  pub name : Str
  pub uuid : Str

-- The owner's storage pool, and utils.ReadJSON of a volume's config.
pub record FlexOwner : Type 1 where
  pub D : Type 0
  pub StoragePool : Type 0
  pub StorageVolume : Type 0
  pub read_options : Str → Prog D Qcow2Options
  pub submatches : Str → Option (Str × Str)
  pub atoi : Str → Option ℕ
  pub storage_pool : Prog D StoragePool
  -- of a name, and a capacity with its unit
  pub create_storage_vol : StoragePool → Str → ℕ → Str → Prog D StorageVolume
  pub remove_volume_by_name : StoragePool → Str → Prog D (Unit {0})
  pub volume_path : StorageVolume → Prog D Str
  pub format : StorageVolume → Prog D (Unit {0})

unfoldable pub qcow2_volume_name : Qcow2Volume → Str
qcow2_volume_name v = codes "virtlet-" ++ (v.domain_uuid ++ (codes "-" ++ v.name))

module _ (o : FlexOwner) where
  open o use {D}

  unfoldable pub new_qcow2_volume : Str → Str → VmConfig → Prog D Qcow2Volume
  unfolding parse_capacity_str
  new_qcow2_volume volume_name config_path config = do
    opts ← annotate "failed to parse qcow2 volume config" (o.read_options config_path)
    capacity ← lift (parse_capacity_str o.submatches o.atoi opts.capacity)
    pure (record {
      domain_uuid = config.domain_uuid;
      capacity = capacity.0;
      capacity_unit = capacity.1;
      name = volume_name;
      uuid = opts.uuid;
    })

  unfoldable pub create_qcow2_volume : Qcow2Volume → Prog D o.StorageVolume
  unfolding qcow2_volume_name
  create_qcow2_volume v = do
    pool ← o.storage_pool
    o.create_storage_vol pool (qcow2_volume_name v) v.capacity v.capacity_unit

  -- The disk is the file at the path that is returned, in the qcow2 format.
  unfoldable pub setup_qcow2 : Qcow2Volume → Prog D Str
  unfolding create_qcow2_volume
  setup_qcow2 v = do
    vol ← annotate "error during creation of volume" (create_qcow2_volume v)
    path ← o.volume_path vol
    o.format vol
    pure path

  unfoldable pub teardown_qcow2 : Qcow2Volume → Prog D (Unit {0})
  unfolding qcow2_volume_name
  teardown_qcow2 v = do pool ← o.storage_pool; o.remove_volume_by_name pool (qcow2_volume_name v)

-- rawVolumeOptions' validate
unfoldable pub validate : Str → Result (Unit {0})
validate path =
    if has_prefix path (codes "/dev/")
    then ok tt
    else err (errorf "raw volume path needs to be prefixed by '/dev/'")

abbrev or_next : Option Bool → Result (Unit {0}) → Result (Unit {0})
or_next none rest = err (errorf "bad raw device whitelist glob pattern")
or_next (some true) rest = ok tt
or_next (some false) rest = rest

-- Over the templates of the owner, with filepath.Match, which gives nothing for a bad pattern.
unfoldable pub verify_raw_device_whitelisted :
    (Str → Str → Option Bool) → List Str → Str → Result (Unit {0})
verify_raw_device_whitelisted glob [] path =
    err (errorf "device not whitelisted on this virtlet node")
verify_raw_device_whitelisted glob (t ∷ ts) path =
    or_next (glob (codes "/dev/" ++ t) path) (verify_raw_device_whitelisted glob ts path)

-- CombineVMVolumeSources: the first source that fails ends it.
unfoldable pub combine : {S V : Type 0} → List (Prog S (List V)) → Prog S (List V)
combine [] = pure []
combine (source ∷ sources) = do vs ← source; rest ← combine sources; pure (vs ++ rest)
