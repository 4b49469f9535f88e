-- ===== src/Tool/Settings.antt =====
-- virtualization.go: the settings of a domain and the libvirt definition made from them.
use virtlet.Prelude.{
  ℕ, Str, codes, str_eq, Bool, true, false, Option, none, some, List, [], ◌∷◌, ◌++◌, if◌then◌else◌,
}
use virtlet.Prelude.Int.{ℤ, to_u64}
use virtlet.Types.{VmConfig}
use virtlet.Types.Domain.{DomainDef, Cpu}
use virtlet.Types.Annotations.{VirtletAnnotations, host_model}

abbrev default_domain_type : Str
default_domain_type = codes "kvm"

abbrev default_emulator : Str
default_emulator = codes "/usr/bin/kvm"

abbrev no_kvm_domain_type : Str
no_kvm_domain_type = codes "qemu"

abbrev no_kvm_emulator : Str
no_kvm_emulator = codes "/usr/bin/qemu-system-x86_64"

pub record VirtualizationConfig : Type 0 where
  pub disable_kvm : Bool
  pub enable_sriov : Bool
  pub streamer_socket_path : Str
  pub cpu_model : Str

pub record DomainSettings : Type 0 where
  pub use_kvm : Bool
  pub domain_name : Str
  pub domain_uuid : Str
  pub memory : ℤ
  pub memory_unit : Str
  pub vcpu_num : ℤ
  pub cpu_shares : ℕ
  pub cpu_period : ℕ
  pub cpu_quota : ℤ
  pub net_fd_key : Str
  pub enable_sriov : Bool
  pub cpu_model : Str
  pub system_uuid : Option Str

-- filepath.Join of a directory and a path: an empty part is left out. Cleaning ("..", "//") is
-- not modelled.
unfoldable pub join : Str → Str → Str
join [] p = p
join (c ∷ d) [] = c ∷ d
join (c ∷ d) (e ∷ p) = c ∷ (d ++ codes "/" ++ e ∷ p)

abbrev host_cpu : Cpu
host_cpu = record {
  mode = host_model;
  fallback = codes "forbid";
  features = (codes "require", codes "vmx") ∷ [];
}

-- The annotation wins; otherwise the model decides, and an unknown one is logged and left out.
cpu_of : Option Cpu → Str → Option Cpu
cpu_of (some cpu) model = some cpu
cpu_of none model = if str_eq model host_model then some host_cpu else none

sriov_envs : Bool → List (Str × Str)
sriov_envs true = (codes "VMWRAPPER_KEEP_PRIVS", codes "1") ∷ []
sriov_envs false = []

unfoldable pub create_domain : DomainSettings → VmConfig → VirtletAnnotations → DomainDef
unfolding cpu_of sriov_envs join
create_domain ds config va = record {
  type = if ds.use_kvm then default_domain_type else no_kvm_domain_type;
  name = ds.domain_name;
  uuid = ds.domain_uuid;
  memory = to_u64 ds.memory;
  memory_unit = ds.memory_unit;
  vcpu = ds.vcpu_num;
  cpu_shares = ds.cpu_shares;
  cpu_period = ds.cpu_period;
  cpu_quota = ds.cpu_quota;
  on_poweroff = codes "destroy";
  on_reboot = codes "restart";
  on_crash = codes "restart";
  envs =
      (codes "VIRTLET_EMULATOR", if ds.use_kvm then default_emulator else no_kvm_emulator)
      ∷ (codes "VIRTLET_NET_KEY", ds.net_fd_key)
      ∷ (codes "VIRTLET_CONTAINER_ID", config.domain_uuid)
      ∷ (codes "VIRTLET_CONTAINER_LOG_PATH", join config.log_directory config.log_path)
      ∷ sriov_envs ds.enable_sriov;
  cpu = cpu_of va.cpu_setting ds.cpu_model;
  system_uuid = ds.system_uuid;
  devices = record {
    emulator = codes "/vmwrapper";
    controllers =
        record { type = codes "scsi"; index = some 0; model = codes "virtio-scsi"; address = none }
        ∷ [];
    disks = [];
    filesystems = [];
    serials = [];
    consoles = [];
  };
}

-- With no streamer socket the domain gets a plain serial port and a console on it.
unfoldable pub add_serial_devices_to_domain : VirtualizationConfig → DomainDef → DomainDef
add_serial_devices_to_domain config d =
    if str_eq config.streamer_socket_path []
    then record d {
      devices = record d.devices {
        serials = record { socket = none; reconnect_timeout = none; port = 0 } ∷ [];
        consoles = record { target_type = codes "serial"; port = 0 } ∷ [];
      };
    }
    else record d {
      devices = record d.devices {
        serials =
            record {
              socket = some config.streamer_socket_path;
              reconnect_timeout = some 1;
              port = 0;
            }
            ∷ [];
      };
    }
