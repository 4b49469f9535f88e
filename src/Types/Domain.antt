-- ===== src/Types/Domain.antt =====
-- The fields of libvirtxml's structures that the code reads or writes; a nil pointer is `none`.
use virtlet.Prelude.{ℕ, Str, Option, List}
use virtlet.Prelude.Int.{ℤ}

-- virt.DomainState
pub data DomainState : Type 0 where
  no_state running blocked paused shutdown crashed pm_suspended shutoff : DomainState

pub record PciAddress : Type 0 where
  pub domain : Option ℕ
  pub bus : Option ℕ
  pub slot : Option ℕ
  pub function : Option ℕ

pub record DriveAddress : Type 0 where
  pub controller : Option ℕ
  pub bus : Option ℕ
  pub target : Option ℕ
  pub unit : Option ℕ

pub record Address : Type 0 where
  pub pci : Option PciAddress
  pub drive : Option DriveAddress

pub record DiskTarget : Type 0 where
  pub dev : Str
  pub bus : Str

-- `file` is Source.File.File, `none` where one of the two pointers is nil.
pub record DiskDef : Type 0 where
  pub target : Option DiskTarget
  pub address : Option Address
  pub file : Option Str

pub record FilesystemDef : Type 0 where
  pub source_dir : Str
  pub target_dir : Str

pub record Controller : Type 0 where
  pub type : Str
  pub index : Option ℕ
  pub model : Str
  pub address : Option Address

pub record Cpu : Type 0 where
  pub mode : Str
  pub fallback : Str
  pub features : List (Str × Str)

-- A serial device, connected to a socket that is reconnected after `timeout` or to nothing.
pub record Serial : Type 0 where
  pub socket : Option Str
  pub reconnect_timeout : Option ℕ
  pub port : ℕ

pub record Console : Type 0 where
  pub target_type : Str
  pub port : ℕ

pub record Devices : Type 0 where
  pub emulator : Str
  pub controllers : List Controller
  pub disks : List DiskDef
  pub filesystems : List FilesystemDef
  pub serials : List Serial
  pub consoles : List Console

pub record DomainDef : Type 0 where
  pub type : Str
  pub name : Str
  pub uuid : Str
  pub memory : ℕ
  pub memory_unit : Str
  pub vcpu : ℤ
  pub cpu_shares : ℕ
  pub cpu_period : ℕ
  pub cpu_quota : ℤ
  pub on_poweroff : Str
  pub on_reboot : Str
  pub on_crash : Str
  pub envs : List (Str × Str)
  pub cpu : Option Cpu
  pub system_uuid : Option Str
  pub devices : Devices
