-- ===== src/DiskList.antt =====
-- disklist.go: the disks of one VM, set up together or not at all.
mod Defs
pub mod Rollback
pub mod Drivers
pub use Defs.{DiskItem, DiskPathMap, of_option, with_item, any_error}
unfoldable pub use Defs.{
  assign_drivers, new_disk_list, setup_item, teardown_quietly, setup_from, setup_disks,
  write_images, teardown_errors, teardown_disks,
}
