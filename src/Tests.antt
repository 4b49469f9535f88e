-- ===== src/Tests.antt =====
-- A small machine and store, and the theorems at work on them.
mod Machine
mod Shelf
mod Vms
mod Disks
mod Orphans
mod Db
mod Creation
mod Taps
mod Images
mod Cabin
mod Pods
mod Calls
mod Requests
mod Devices
mod Translations
mod Roots
