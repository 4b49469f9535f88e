-- ===== src/Blockdev.antt =====
-- pkg/blockdev/blockdev.go: block devices whose first sector holds Virtlet's metadata.
pub mod Defs
pub mod Header
pub mod Claimed
pub mod Sizes
