-- ===== src/Runtime.antt =====
-- pkg/manager/runtime.go and cri.go: the runtime service of CRI, as kubelet calls it.
pub mod Messages
pub mod Convert
mod Asked
pub mod Host
pub mod Pods
mod Parts
pub mod Undone
pub mod Running
pub mod Stopping
pub mod Wired
pub mod Calls
pub mod Containers
pub mod Creating
pub mod Images
