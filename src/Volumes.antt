-- ===== src/Volumes.antt =====
-- pkg/libvirttools: the volumes of a VM.
pub mod PersistentRoot
pub mod Root
pub mod Flex
