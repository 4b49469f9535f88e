-- ===== src/DiskList/Defs.antt =====
-- disklist.go: the disks of one VM, set up together or not at all.
use virtlet.Prelude.{
  ℕ, suc, Str, str_eq, Bool, true, false, Option, none, some, List, [], ◌∷◌, ◌++◌, if◌then◌else◌,
}
use virtlet.Result.{Error, Result, ok, err, fault, panic, errorf}
use virtlet.Prog.{Prog, pure, crash, lift, raise, attempt, annotate, ◌>>=◌, ◌>>◌}
use virtlet.Types.{VmConfig}
use virtlet.Types.Domain.{DomainDef, DiskDef, FilesystemDef}
use virtlet.Disk.Driver.{
  DiskDriver, DiskDriverFactory, make_driver, get_disk_driver_factory, target, address,
}
use virtlet.Disk.Path.{DiskPath}
use virtlet.Disk.Locate.{disk_path}
use virtlet.World.{World}

abbrev pub of_option : {A : Type 0} → Option A → List A
of_option none = []
of_option (some a) = a ∷ []

-- The map from volume UUIDs to paths: an entry replaces an earlier one.
abbrev pub DiskPathMap : Type 0
DiskPathMap = List (Str × DiskPath)

put_path : Str → DiskPath → DiskPathMap → DiskPathMap
put_path k p [] = (k, p) ∷ []
put_path k p ((j, q) ∷ m) = if str_eq j k then (k, p) ∷ m else (j, q) ∷ put_path k p m

-- diskItem; `driver` is nil for a volume that is no disk.
pub record DiskItem (Volume : Type 0) : Type 0 where
  pub driver : Option DiskDriver
  pub volume : Volume

-- The two results of Setup() must be a disk for a disk volume and a filesystem for another.
check_defs :
    Bool → Option DiskDef × Option FilesystemDef → Result (Option DiskDef × Option FilesystemDef)
check_defs true (some d, none) = ok (some d, none)
check_defs false (none, some f) = ok (none, some f)
check_defs _ _ = fault panic

-- diskDef.Target = driver.target(); diskDef.Address = driver.address()
-- A disk with no driver would be a nil dereference.
place :
    Option DiskDriver
    → Option DiskDef × Option FilesystemDef
    → Result (Option DiskDef × Option FilesystemDef)
place (some driver) (some d, f) =
    ok (some (record d { target = some (target driver); address = some (address driver) }), f)
place none (some d, f) = fault panic
place driver (none, f) = ok (none, f)

abbrev pub with_item :
    {Volume : Type 0}
    → DiskItem Volume
    → Result (List (DiskItem Volume))
    → Result (List (DiskItem Volume))
with_item item (ok items) = ok (item ∷ items)
with_item item (err e) = err e
with_item item (fault f) = fault f

abbrev pub any_error : {W : Type 0} → List Error → Prog W (Unit {0})
any_error [] = pure tt
any_error (e ∷ es) = raise (errorf "failed to tear down some of the volumes")

module _ (x : World) where
  open x use {W, Volume, is_disk, volume_uuid, volume_source, xml, write_image, teardown}

  -- The loop of newDiskList over the volumes; `n` counts the disks.
  unfoldable pub assign_drivers :
      DiskDriverFactory → ℕ → List Volume → Result (List (DiskItem Volume))
  assign_drivers factory n [] = ok []
  assign_drivers factory n (v ∷ vs) = elim (is_disk v) [
    | false ↦ with_item (record { driver = none; volume = v }) (assign_drivers factory n vs)
    | true ↦ elim (make_driver factory n) [
      | ok d ↦
          with_item (record { driver = some d; volume = v }) (assign_drivers factory (suc n) vs)
      | err e ↦ err e
      | fault f ↦ fault f
    ]
  ]

  -- config.ParsedAnnotations is read with no test for nil.
  factory_of : VmConfig → Result DiskDriverFactory
  factory_of config = elim config.parsed_annotations [
    | none ↦ fault panic
    | some va ↦ get_disk_driver_factory va.disk_driver
  ]

  unfoldable pub new_disk_list : VmConfig → Prog W (List (DiskItem Volume))
  unfolding factory_of
  new_disk_list config = do
    vm_vols ← volume_source config
    factory ← lift (factory_of config)
    lift (assign_drivers factory 0 vm_vols)

  unfoldable pub setup_item : DiskItem Volume → Prog W (Option DiskDef × Option FilesystemDef)
  unfolding check_defs place
  setup_item item = do
    defs ← x.setup item.volume
    checked ← lift (check_defs (is_disk item.volume) defs)
    lift (place item.driver checked)

  -- The clean-up of `setup`: errors are logged and passed over.
  unfoldable pub teardown_quietly : List (DiskItem Volume) → Prog W (Unit {0})
  teardown_quietly [] = pure tt
  teardown_quietly (item ∷ items) = do _ ← attempt (teardown item.volume); teardown_quietly items

  -- The loop of `setup`: `done` is dl.items[:n].
  unfoldable pub setup_from :
      List (DiskItem Volume)
      → List DiskDef
      → List FilesystemDef
      → List (DiskItem Volume)
      → Prog W (List DiskDef × List FilesystemDef)
  setup_from done disks filesystems [] = pure (disks, filesystems)
  setup_from done disks filesystems (item ∷ items) = do
    r ← attempt (setup_item item)
    elim r [
      | ok (disk_def, fs_def) ↦
          setup_from (done ++ item ∷ []) (disks ++ of_option disk_def)
            (filesystems ++ of_option fs_def) items
      | err e ↦ (do teardown_quietly done; raise e)
      | fault f ↦ crash f
    ]

  unfoldable pub setup_disks : List (DiskItem Volume) → Prog W (List DiskDef × List FilesystemDef)
  setup_disks items = setup_from [] [] [] items

  -- The first loop of writeImages.
  path_map : DomainDef → DiskPathMap → List (DiskItem Volume) → Result DiskPathMap
  path_map desc m [] = ok m
  path_map desc m (item ∷ items) = elim item.driver [
    | none ↦ path_map desc m items
    | some d ↦ elim (str_eq (volume_uuid item.volume) []) [
      | true ↦ path_map desc m items
      | false ↦ elim (disk_path d desc) [
        | ok p ↦ path_map desc (put_path (volume_uuid item.volume) p m) items
        | err e ↦ err e
        | fault f ↦ fault f
      ]
    ]
  ]

  -- The second loop of writeImages.
  write_each : DiskPathMap → List (DiskItem Volume) → Prog W (Unit {0})
  write_each m [] = pure tt
  write_each m (item ∷ items) = do write_image m item.volume; write_each m items

  unfoldable pub write_images : x.Domain → List (DiskItem Volume) → Prog W (Unit {0})
  unfolding path_map write_each put_path
  write_images domain items = do
    desc ← annotate "couldn't get domain xml" (xml domain)
    m ← lift (path_map desc [] items)
    write_each m items

  -- The loop of `teardown`, which goes on after an error: it returns the errors in order.
  unfoldable pub teardown_errors : List (DiskItem Volume) → Prog W (List Error)
  teardown_errors [] = pure []
  teardown_errors (item ∷ items) = do
    r ← attempt (teardown item.volume)
    errs ← teardown_errors items
    elim r [ ok u ↦ pure errs | err e ↦ pure (e ∷ errs) | fault f ↦ crash f ]

  unfoldable pub teardown_disks : List (DiskItem Volume) → Prog W (Unit {0})
  teardown_disks items = do errs ← teardown_errors items; any_error errs
