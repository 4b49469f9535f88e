-- ===== src/Gc.antt =====
-- pkg/libvirttools/gc.go: garbage collection of domains, volumes, images and block devices.
pub mod Names
pub mod Collect
pub mod Safety
pub mod Roots
