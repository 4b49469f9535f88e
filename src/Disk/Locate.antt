-- ===== src/Disk/Locate.antt =====
-- diskdriver.go: where a disk of each driver is found inside the VM.
use virtlet.Prelude.{ℕ, codes, Option, none, some, List, [], ◌∷◌, ◌++◌, ◌==◌, if◌then◌else◌}
use virtlet.Result.{Result, ok, err, fault, panic, errorf, ◌>>=◌}
use virtlet.Types.Domain.{DomainDef, Controller, Address, DriveAddress}
use virtlet.Disk.Driver.{DiskDriver, virtio_blk, scsi, dev_name}
use virtlet.Disk.Format.{decimal}
use virtlet.Disk.Path.{DiskPath, find_disk, find_controllers, pci_path}

-- exactly one scsi controller
one_controller : List Controller → Result Controller
one_controller [] = err (errorf "no scsi controllers found")
one_controller (c ∷ []) = ok c
one_controller (c ∷ d ∷ cs) = err (errorf "more than one scsi controller is not supported")

-- Bus, target and unit of a drive address whose fields are all set and whose controller is 0.
drive_fields : Option ℕ → Option ℕ → Option ℕ → Option ℕ → Result (ℕ × ℕ × ℕ)
drive_fields (some c) (some b) (some t) (some u) =
    if c == 0 then ok (b, t, u) else err (errorf "bad controller index for scsi disk")
drive_fields _ _ _ _ = err (errorf "bad disk address for scsi disk")

drive_of : Option DriveAddress → Result (ℕ × ℕ × ℕ)
drive_of none = err (errorf "bad disk address for scsi disk")
drive_of (some d) = drive_fields d.controller d.bus d.target d.unit

-- disk.Address is read with no test for nil.
drive_address : Option Address → Result (ℕ × ℕ × ℕ)
drive_address none = fault panic
drive_address (some a) = drive_of a.drive

scsi_path : DiskPath → ℕ × ℕ × ℕ → DiskPath
scsi_path p (b, t, u) = record {
  dev_path =
      p.dev_path
      ++ codes "-scsi-0:"
      ++ decimal b
      ++ codes ":"
      ++ decimal t
      ++ codes ":"
      ++ decimal u;
  sysfs_path =
      p.sysfs_path
      ++ codes "/virtio*/host*/target*:"
      ++ decimal b
      ++ codes ":"
      ++ decimal t
      ++ codes "/*:"
      ++ decimal b
      ++ codes ":"
      ++ decimal t
      ++ codes ":"
      ++ decimal u
      ++ codes "/block/";
}

unfoldable pub disk_path : DiskDriver → DomainDef → Result DiskPath
unfolding one_controller drive_fields drive_of drive_address scsi_path
disk_path (virtio_blk n c) domain_def = do
  disk ← find_disk domain_def (dev_name (virtio_blk n c))
  p ← pci_path domain_def disk.address
  ok (record p { sysfs_path = p.sysfs_path ++ codes "/virtio*/block/" })
disk_path (scsi n c) domain_def = do
  ctl ← one_controller (find_controllers domain_def (codes "scsi"))
  disk ← find_disk domain_def (dev_name (scsi n c))
  drive ← drive_address disk.address
  p ← pci_path domain_def ctl.address
  ok (scsi_path p drive)
