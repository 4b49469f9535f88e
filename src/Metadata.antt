-- ===== src/Metadata.antt =====
-- pkg/metadata: the store of pods and containers, kept in a bolt database.
pub mod Bolt
pub mod Containers
pub mod Sandboxes
pub mod Links
pub mod Saved
pub mod Store
pub mod Dangling
pub mod Pods
pub mod PodLaws
