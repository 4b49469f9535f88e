-- ===== src/Tests/Disks.antt =====
-- The disk lists and the annotations on the test machine.
use virtlet.Disk.Path.{pci_path, find_controllers}
use virtlet.Disk.Bus.{at, pci_path-bus}
use virtlet.Prelude.{
  ◌↔◌, ltb, length, if◌then◌else◌, ◌≤◌, codes, str_eq, none, some, List, [], ◌∷◌, ◌++◌, ◌≡◌, refl,
  arith,
}
use virtlet.Prelude.Int.{pos}
use virtlet.Result.{ok, err, fault, foreign, panic, wrap, errorf}
use virtlet.World.{World}
use virtlet.Prog.{Prog, ◌>>=◌}
use virtlet.Types.Domain.{DiskDef, FilesystemDef}
use virtlet.Types.Annotations.{
  VirtletAnnotations, load_annotations, IsUsable, load_annotations-IsUsable, disk_driver_scsi,
  no_cloud,
}
use virtlet.Disk.Driver.{scsi_driver_factory, scsi}
use virtlet.DiskList.{DiskItem, of_option, setup_item, setup_disks, teardown_disks, assign_drivers}
use virtlet.DiskList.Rollback.{SetUp, TornDown, setup_disks_rollback, teardown_disks-TornDown}
use virtlet.DiskList.Drivers.{Assigned, Distinct, device_names, assign_drivers-Assigned}
use virtlet.Tests.Machine.{empty_definition, Machine, TestVolume, machine, fresh, parsed}

abbrev item : TestVolume → DiskItem TestVolume
item v = record { driver = some (scsi 0 97); volume = v }

abbrev root : DiskItem TestVolume
root = item (TestVolume.disk (codes "root"))

abbrev shared : DiskItem TestVolume
shared = item (TestVolume.directory (codes "shared"))

abbrev broken : DiskItem TestVolume
broken = item (TestVolume.disk (codes "bad"))

abbrev after_root : Machine
after_root = (setup_item machine root fresh).1

abbrev after_both : Machine
after_both = (setup_item machine shared after_root).1

abbrev root_disks : List DiskDef
root_disks =
    of_option
      (elim (setup_item machine root fresh).0 [ ok p ↦ p.0 | err e ↦ none | fault f ↦ none ])

abbrev shared_filesystems : List FilesystemDef
shared_filesystems =
    of_option
      (elim (setup_item machine shared after_root).0 [ ok p ↦ p.1 | err e ↦ none | fault f ↦ none ])

both_up : SetUp machine (root ∷ shared ∷ []) fresh root_disks shared_filesystems after_both
unfolding setup_item ◌>>=◌ str_eq
both_up = SetUp.one_more refl (SetUp.one_more refl SetUp.nothing)

root_up : SetUp machine (root ∷ []) fresh root_disks [] after_root
unfolding setup_item ◌>>=◌ str_eq
root_up = SetUp.one_more refl SetUp.nothing

breaks : setup_item machine broken after_root ≡ (err (foreign 7), after_root)
unfolding setup_item ◌>>=◌ str_eq
breaks = refl

abbrev torn : Machine
torn = (machine.teardown root.volume after_root).1

root_down : TornDown machine (root ∷ []) after_root [] torn
unfolding setup_item ◌>>=◌ str_eq
root_down = TornDown.down refl TornDown.nothing

-- The first disk is torn down again, the directory after the broken disk is not touched.
setup_disks_rollback_example :
    setup_disks machine (root ∷ broken ∷ shared ∷ []) fresh ≡ (err (foreign 7), torn)
setup_disks_rollback_example =
    setup_disks_rollback machine (root ∷ []) (shared ∷ []) broken (foreign 7) fresh after_root
      after_root torn root_disks [] [] root_up breaks root_down

-- Directories cannot be torn down.
abbrev release : TestVolume → Prog Machine (Unit {0})
release (TestVolume.disk n) w = (ok tt, w)
release (TestVolume.directory n) w = (err (foreign 8), w)

abbrev jammed : World
jammed = record machine { teardown = release }

both_down : TornDown jammed (shared ∷ root ∷ []) fresh (foreign 8 ∷ []) fresh
both_down = TornDown.failed refl (TornDown.down refl TornDown.nothing)

teardown_disks-TornDown_example :
    ((teardown_disks jammed (shared ∷ root ∷ []) fresh).1 ≡ fresh)
    × (((teardown_disks jammed (shared ∷ root ∷ []) fresh).0 ≡ ok tt) ↔ (foreign 8 ∷ [] ≡ []))
teardown_disks-TornDown_example = teardown_disks-TornDown jammed both_down

abbrev volumes : List TestVolume
volumes =
    TestVolume.disk (codes "root")
    ∷ TestVolume.directory (codes "shared")
    ∷ TestVolume.disk (codes "data")
    ∷ []

assign_drivers-Assigned_example :
    (items : List (DiskItem TestVolume)) × (assign_drivers machine scsi_driver_factory 0 volumes
      ≡ ok items)
    × Assigned machine scsi_driver_factory 0 volumes items
    × Distinct (device_names machine items)
assign_drivers-Assigned_example =
    assign_drivers-Assigned machine scsi_driver_factory volumes (omega arith)

abbrev twice : List TestVolume → List TestVolume
twice l = l ++ l

abbrev too_many_volumes : List TestVolume
too_many_volumes = twice (twice (twice (twice volumes)))

abbrev usable : VirtletAnnotations
usable = record parsed {
  vcpu_count = pos 1;
  disk_driver = disk_driver_scsi;
  cd_image_type = no_cloud;
}

loads : load_annotations machine.parse_pod_annotations (codes "default") [] ≡ ok usable
unfolding load_annotations str_eq
loads = refl

load_annotations-IsUsable_example : IsUsable usable
load_annotations-IsUsable_example =
    load_annotations-IsUsable machine.parse_pod_annotations (codes "default") [] usable loads

none_there : length (find_controllers empty_definition (codes "pci")) ≤ 0
unfolding find_controllers
none_there = omega arith

-- The test machine's domain has no PCI controller, so bus 0 is one too many.
pci_path-bus_example : pci_path empty_definition (some (at 0 0 1 0)) ≡ (
    if ltb (length (find_controllers empty_definition (codes "pci"))) 0
    then err (wrap "pciPath" (errorf "bad PCI bus number"))
    else fault panic)
pci_path-bus_example = pci_path-bus empty_definition 0 0 1 0 none_there
