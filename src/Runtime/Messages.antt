-- ===== src/Runtime/Messages.antt =====
-- What the runtime and image services read and write of the CRI messages, which are generated
-- outside the repository. A nil pointer is `none`. The enumerations of CRI have the numbers of those
-- in pkg/metadata/types, so that the casts between the two are left out.
use virtlet.Prelude.{ℕ, Str, Bool, Option, List}
use virtlet.Prelude.Int.{ℤ}
use virtlet.Types.{
  ContainerState, DnsConfig, PodSandboxState, PortMapping, StrMap, VmKeyValue, VmMount,
  VmVolumeDevice,
}

pub record PodSandboxMetadata : Type 0 where
  pub name : Str
  pub uid : Str
  pub namespace : Str
  pub attempt : ℕ

-- kubeapi.PodSandboxConfig; of Linux, the parent cgroup.
pub record CriPodConfig : Type 0 where
  pub metadata : Option PodSandboxMetadata
  pub hostname : Str
  pub log_directory : Str
  pub dns_config : Option DnsConfig
  pub port_mappings : List PortMapping
  pub labels : StrMap
  pub annotations : StrMap
  pub linux : Option Str

-- kubeapi.PodSandbox
pub record CriPod : Type 0 where
  pub id : Str
  pub metadata : PodSandboxMetadata
  pub state : PodSandboxState
  pub created_at : ℕ
  pub labels : StrMap
  pub annotations : StrMap

-- kubeapi.PodSandboxStatus: a CriPod with the IP address of its network, if there is one.
pub record CriPodStatus : Type 0 where
  pub pod : CriPod
  pub network : Option Str

-- kubeapi.PodSandboxFilter
pub record CriPodFilter : Type 0 where
  pub id : Str
  pub state : Option PodSandboxState
  pub label_selector : StrMap

pub record ContainerMetadata : Type 0 where
  pub name : Str
  pub attempt : ℕ

pub record LinuxResources : Type 0 where
  pub memory_limit_in_bytes : ℤ
  pub cpu_shares : ℤ
  pub cpu_period : ℤ
  pub cpu_quota : ℤ

-- kubeapi.ContainerConfig; `linux` is Linux and its Resources, and `image` the name in Image. A
-- device has its path in the container as `device_path`.
pub record CriContainerConfig : Type 0 where
  pub metadata : Option ContainerMetadata
  pub image : Option Str
  pub envs : List VmKeyValue
  pub mounts : List VmMount
  pub devices : List VmVolumeDevice
  pub labels : StrMap
  pub annotations : StrMap
  pub log_path : Str
  pub linux : Option (Option LinuxResources)

pub record CreateContainerRequest : Type 0 where
  pub pod_sandbox_id : Str
  pub config : Option CriContainerConfig
  pub sandbox_config : Option CriPodConfig

-- kubeapi.Container; `image` is both Image.Image and ImageRef.
pub record CriContainer : Type 0 where
  pub id : Str
  pub pod_sandbox_id : Str
  pub metadata : ContainerMetadata
  pub image : Str
  pub state : ContainerState
  pub created_at : ℕ
  pub labels : StrMap
  pub annotations : StrMap

-- kubeapi.ContainerStatus
pub record CriContainerStatus : Type 0 where
  pub id : Str
  pub metadata : ContainerMetadata
  pub image : Str
  pub state : ContainerState
  pub created_at : ℕ
  pub started_at : ℕ
  pub labels : StrMap
  pub annotations : StrMap
  pub mounts : List VmMount
  pub log_path : Str

-- kubeapi.ContainerFilter, whose empty selector is nil
pub record CriContainerFilter : Type 0 where
  pub id : Str
  pub state : Option ContainerState
  pub pod_sandbox_id : Str
  pub label_selector : Option StrMap

-- kubeapi.ContainerStatsFilter
pub record CriStatsFilter : Type 0 where
  pub id : Str
  pub pod_sandbox_id : Str
  pub label_selector : Option StrMap

-- kubeapi.ContainerStats; every one of its parts has the timestamp. InodesUsed is always 1.
pub record CriStats : Type 0 where
  pub id : Str
  pub name : Str
  pub timestamp : ℕ
  pub usage_core_nano_seconds : ℕ
  pub working_set_bytes : ℕ
  pub mountpoint : Str
  pub used_bytes : ℕ
  pub inodes_used : ℕ

-- kubeapi.AttachRequest, its two flags
pub record AttachRequest : Type 0 where
  pub container_id : Str
  pub stdout : Bool
  pub stderr : Bool
