-- ===== src/Disk/Driver.antt =====
-- diskdriver.go: the two disk drivers, their limits, device names and addresses.
use virtlet.Prelude.{ℕ, ◌+◌, Str, codes, str_eq, none, some, [], ◌∷◌, ◌++◌, ltb, if◌then◌else◌}
use virtlet.Result.{Result, ok, err, errorf}
use virtlet.Types.Domain.{DiskTarget, Address}
use virtlet.Types.Annotations.{disk_driver_virtio, disk_driver_scsi}

abbrev pub min_block_dev_char : ℕ
min_block_dev_char = b'a'

abbrev pub max_virtio_block_dev_char : ℕ
max_virtio_block_dev_char = b'u'

abbrev pub max_scsi_block_dev_char : ℕ
max_scsi_block_dev_char = b'z'

-- virtioBlkDriver and scsiDriver: the number of the disk and its letter.
pub data DiskDriver : Type 0 where
  virtio_blk : ℕ → ℕ → DiskDriver
  scsi : ℕ → ℕ → DiskDriver

-- The values of diskDriverMap.
pub data DiskDriverFactory : Type 0 where
  virtio_blk_driver_factory scsi_driver_factory : DiskDriverFactory

unfoldable pub make_driver : DiskDriverFactory → ℕ → Result DiskDriver
make_driver virtio_blk_driver_factory n =
    let disk_char = min_block_dev_char + n in
    if ltb max_virtio_block_dev_char disk_char
    then err (errorf "too many virtio block devices")
    else ok (virtio_blk n disk_char)
make_driver scsi_driver_factory n =
    let disk_char = min_block_dev_char + n in
    if ltb max_scsi_block_dev_char disk_char
    then err (errorf "too many scsi block devices")
    else ok (scsi n disk_char)

unfoldable pub get_disk_driver_factory : Str → Result DiskDriverFactory
get_disk_driver_factory name =
    if str_eq name disk_driver_virtio
    then ok virtio_blk_driver_factory
    else if str_eq name disk_driver_scsi
    then ok scsi_driver_factory
    else err (errorf "bad disk driver name")

unfoldable pub dev_name : DiskDriver → Str
dev_name (virtio_blk n c) = codes "vd" ++ c ∷ []
dev_name (scsi n c) = codes "sd" ++ c ∷ []

unfoldable pub target : DiskDriver → DiskTarget
unfolding dev_name
target (virtio_blk n c) = record { dev = dev_name (virtio_blk n c); bus = codes "virtio" }
target (scsi n c) = record { dev = dev_name (scsi n c); bus = codes "scsi" }

-- Virtio disks stand on PCI bus 1, slot n + 1; SCSI disks are units of controller 0.
unfoldable pub address : DiskDriver → Address
address (virtio_blk n c) = record {
  pci = some (record { domain = some 0; bus = some 1; slot = some (n + 1); function = some 0 });
  drive = none;
}
address (scsi n c) = record {
  pci = none;
  drive = some (record { controller = some 0; bus = some 0; target = some 0; unit = some n });
}
