-- ===== src/Types.antt =====
-- The data of pkg/metadata/types and of the libvirt domain definitions that the code builds.
pub mod Domain
pub mod Annotations
use virtlet.Prelude.{ℕ, Str, Bool, Option, List, ◌≡◌}
use virtlet.Prelude.Int.{ℤ}
use Annotations.{VirtletAnnotations}

-- A Go map from strings to strings; a nil map and an empty one read alike.
abbrev pub StrMap : Type 0
StrMap = List (Str × Str)

pub data ContainerState : Type 0 where
  created running exited unknown : ContainerState

pub ContainerState-discrete : Discrete ContainerState
ContainerState-discrete = hlevel

pub data PodSandboxState : Type 0 where
  ready not_ready : PodSandboxState

-- Of a CNI result, the version and the address of each IP configuration, as text.
pub record CniIp : Type 0 where
  pub version : Str
  pub address : Str

pub record CniResult : Type 0 where
  pub ips : List CniIp

-- Of network.ContainerSideNetwork, the CNI result and the path of the network namespace.
pub record ContainerSideNetwork : Type 0 where
  pub result : Option CniResult
  pub ns_path : Str

pub record VmKeyValue : Type 0 where
  pub key : Str
  pub value : Str

pub record VmMount : Type 0 where
  pub container_path : Str
  pub host_path : Str
  pub readonly : Bool

pub record VmVolumeDevice : Type 0 where
  pub device_path : Str
  pub host_path : Str

pub record VmConfig : Type 0 where
  pub pod_sandbox_id : Str
  pub pod_name : Str
  pub pod_namespace : Str
  pub name : Str
  pub image : Str
  pub attempt : ℕ
  pub memory_limit_in_bytes : ℤ
  pub cpu_shares : ℤ
  pub cpu_period : ℤ
  pub cpu_quota : ℤ
  pub pod_annotations : StrMap
  pub container_annotations : StrMap
  pub container_labels : StrMap
  pub parsed_annotations : Option VirtletAnnotations
  pub domain_uuid : Str
  pub environment : List VmKeyValue
  pub mounts : List VmMount
  pub volume_devices : List VmVolumeDevice
  pub container_side_network : Option ContainerSideNetwork
  pub log_directory : Str
  pub log_path : Str

pub record ContainerInfo : Type 0 where
  pub id : Str
  pub name : Str
  pub created_at : ℕ
  pub started_at : ℕ
  pub state : ContainerState
  pub config : VmConfig

pub data Protocol : Type 0 where
  tcp udp : Protocol

pub record DnsConfig : Type 0 where
  pub servers : List Str
  pub searches : List Str
  pub options : List Str

pub record PortMapping : Type 0 where
  pub protocol : Protocol
  pub container_port : ℤ
  pub host_port : ℤ
  pub host_ip : Str

pub record PodSandboxConfig : Type 0 where
  pub name : Str
  pub uid : Str
  pub namespace : Str
  pub attempt : ℕ
  pub hostname : Str
  pub log_directory : Str
  pub dns_config : DnsConfig
  pub port_mappings : List PortMapping
  pub labels : StrMap
  pub annotations : StrMap
  pub cgroup_parent : Str

pub record PodSandboxInfo : Type 0 where
  pub pod_id : Str
  pub config : PodSandboxConfig
  pub created_at : ℕ
  pub state : PodSandboxState
  pub container_side_network : Option ContainerSideNetwork

-- An empty string and a nil pointer leave a field out of the filter.
pub record PodSandboxFilter : Type 0 where
  pub id : Str
  pub state : Option PodSandboxState
  pub label_selector : StrMap

pub record ContainerFilter : Type 0 where
  pub id : Str
  pub state : Option ContainerState
  pub pod_sandbox_id : Str
  pub label_selector : Option StrMap

pub record VmStats : Type 0 where
  pub container_id : Str
  pub name : Str
  pub timestamp : ℕ
  pub cpu_usage : ℕ
  pub memory_usage : ℕ
  pub fs_bytes : ℕ

pub record VmStatsFilter : Type 0 where
  pub id : Str
  pub pod_sandbox_id : Str
  pub label_selector : Option StrMap
