-- ===== src/Image.antt =====
-- The image store: pkg/image/image.go.
pub mod Names
pub mod Files
pub mod Store
pub mod Change
pub mod Pull
pub mod Listing
pub mod Sound
pub mod Keeps
pub mod Shrinks
pub mod Placed
pub mod Linked
pub mod Pulled
pub mod Collected
pub mod Found
