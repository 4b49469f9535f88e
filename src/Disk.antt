-- ===== src/Disk.antt =====
-- pkg/libvirttools: disk drivers, device paths and the list of a VM's disks.
pub mod Driver
pub mod Format
pub mod Path
pub mod Locate
pub mod Bus
