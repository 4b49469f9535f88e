-- ===== src/Tool.antt =====
-- pkg/libvirttools: the virtualization tool, which runs the VMs.
pub mod Settings
pub mod State
pub mod Wait
pub mod Lifecycle
pub mod Start
pub mod Create
pub mod Query
pub mod Reports
pub mod Refresh
pub mod Remove
pub mod Created
pub mod Networked
pub mod Stopped
pub mod Cpusets
pub mod Pinning
