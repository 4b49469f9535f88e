-- ===== src/Runtime/Convert.antt =====
-- cri.go and VMStatsToCRIContainerStats: between the CRI messages and Virtlet's own records.
use virtlet.Prelude.{Str, codes, str_eq, Option, none, some, [], ◌++◌, if◌then◌else◌}
use virtlet.Prelude.Int.{pos}
use virtlet.Result.{Result, ok, err, errorf}
use virtlet.Types.{
  ContainerFilter, ContainerInfo, ContainerSideNetwork, DnsConfig, PodSandboxConfig,
  PodSandboxFilter, PodSandboxInfo, VmConfig, VmStats, VmStatsFilter,
}
use virtlet.Disk.Format.{decimal}
use virtlet.Tool.Settings.{join}
use virtlet.Runtime.Messages.{
  ContainerMetadata, CreateContainerRequest, CriContainer, CriContainerConfig, CriContainerFilter,
  CriContainerStatus, CriPod, CriPodConfig, CriPodFilter, CriStats, CriStatsFilter, LinuxResources,
  PodSandboxMetadata,
}

unfoldable pub pod_sandbox_metadata : PodSandboxInfo → PodSandboxMetadata
pod_sandbox_metadata i = record {
  name = i.config.name;
  uid = i.pod_id;
  namespace = i.config.namespace;
  attempt = i.config.attempt;
}

unfoldable pub pod_sandbox_info_to_cri : PodSandboxInfo → CriPod
unfolding pod_sandbox_metadata
pod_sandbox_info_to_cri i = record {
  id = i.pod_id;
  metadata = pod_sandbox_metadata i;
  state = i.state;
  created_at = i.created_at;
  labels = i.config.labels;
  annotations = i.config.annotations;
}

-- The getters of a nil DnsConfig give nil.
dns_of : Option DnsConfig → DnsConfig
dns_of none = record { servers = []; searches = []; options = [] }
dns_of (some d) = d

-- in.GetLinux().GetCgroupParent(), of the parent cgroup if Linux is not nil
cgroup_of : Option Str → Str
cgroup_of none = []
cgroup_of (some parent) = parent

-- For a config whose metadata is `m`: runPodSandbox has refused one that has none.
unfoldable pub cri_pod_config_to_config : CriPodConfig → PodSandboxMetadata → PodSandboxConfig
unfolding dns_of cgroup_of
cri_pod_config_to_config c m = record {
  name = m.name;
  uid = m.uid;
  namespace = m.namespace;
  attempt = m.attempt;
  hostname = c.hostname;
  log_directory = c.log_directory;
  dns_config = dns_of c.dns_config;
  port_mappings = c.port_mappings;
  labels = c.labels;
  annotations = c.annotations;
  cgroup_parent = cgroup_of c.linux;
}

unfoldable pub cri_pod_filter_to_filter : Option CriPodFilter → Option PodSandboxFilter
cri_pod_filter_to_filter none = none
cri_pod_filter_to_filter (some f) =
    some (record { id = f.id; state = f.state; label_selector = f.label_selector })

unfoldable pub or_fallback : Str → Str → Str
or_fallback s d = if str_eq s [] then d else s

-- The four limits, which stay 0 without Linux or its Resources.
unfoldable pub resources_of : Option (Option LinuxResources) → LinuxResources
resources_of (some (some r)) = r
resources_of _ = record {
  memory_limit_in_bytes = pos 0;
  cpu_shares = pos 0;
  cpu_period = pos 0;
  cpu_quota = pos 0;
}

-- The translation of a valid request. parsed_annotations and domain_uuid are set by the tool.
unfoldable pub vm_config_of :
    CreateContainerRequest
    → Option ContainerSideNetwork
    → CriContainerConfig
    → ContainerMetadata
    → Str
    → CriPodConfig
    → PodSandboxMetadata
    → VmConfig
unfolding or_fallback resources_of
vm_config_of r csn c m image p pm = record {
  pod_sandbox_id = r.pod_sandbox_id;
  pod_name = pm.name;
  pod_namespace = pm.namespace;
  name = m.name;
  image = image;
  attempt = m.attempt;
  memory_limit_in_bytes = (resources_of c.linux).memory_limit_in_bytes;
  cpu_shares = (resources_of c.linux).cpu_shares;
  cpu_period = (resources_of c.linux).cpu_period;
  cpu_quota = (resources_of c.linux).cpu_quota;
  pod_annotations = p.annotations;
  container_annotations = c.annotations;
  container_labels = c.labels;
  parsed_annotations = none;
  domain_uuid = [];
  environment = c.envs;
  mounts = c.mounts;
  volume_devices = c.devices;
  container_side_network = csn;
  log_directory = or_fallback p.log_directory (codes "/var/log/pods/" ++ r.pod_sandbox_id);
  log_path = or_fallback c.log_path (m.name ++ codes "_" ++ decimal m.attempt ++ codes ".log");
}

invalid : Result VmConfig
invalid = err (errorf "invalid input data")

with_sandbox_config :
    CreateContainerRequest
    → Option ContainerSideNetwork
    → CriContainerConfig
    → ContainerMetadata
    → Str
    → Result VmConfig
unfolding invalid
with_sandbox_config r csn c m image = elim r.sandbox_config [
  | none ↦ invalid
  | some p ↦ elim p.metadata [ none ↦ invalid | some pm ↦ ok (vm_config_of r csn c m image p pm) ]
]

with_metadata :
    CreateContainerRequest
    → Option ContainerSideNetwork
    → CriContainerConfig
    → ContainerMetadata
    → Result VmConfig
unfolding invalid with_sandbox_config
with_metadata r csn c m =
    if str_eq m.name []
    then invalid
    else elim c.image [ none ↦ invalid | some image ↦ with_sandbox_config r csn c m image ]

unfoldable pub get_vm_config :
    CreateContainerRequest → Option ContainerSideNetwork → Result VmConfig
unfolding invalid with_metadata with_sandbox_config
get_vm_config r csn = elim r.config [
  | none ↦ invalid
  | some c ↦ elim c.metadata [ none ↦ invalid | some m ↦ with_metadata r csn c m ]
]

unfoldable pub cri_container_filter_to_filter : Option CriContainerFilter → Option ContainerFilter
cri_container_filter_to_filter none = none
cri_container_filter_to_filter (some f) = some (record {
  id = f.id;
  state = f.state;
  pod_sandbox_id = f.pod_sandbox_id;
  label_selector = f.label_selector;
})

unfoldable pub cri_stats_filter_to_filter : Option CriStatsFilter → Option VmStatsFilter
cri_stats_filter_to_filter none = none
cri_stats_filter_to_filter (some f) =
    some
      (record { id = f.id; pod_sandbox_id = f.pod_sandbox_id; label_selector = f.label_selector })

unfoldable pub container_metadata : ContainerInfo → ContainerMetadata
container_metadata i = record { name = i.name; attempt = i.config.attempt }

unfoldable pub container_info_to_cri : ContainerInfo → CriContainer
unfolding container_metadata
container_info_to_cri i = record {
  id = i.id;
  pod_sandbox_id = i.config.pod_sandbox_id;
  metadata = container_metadata i;
  image = i.config.image;
  state = i.state;
  created_at = i.created_at;
  labels = i.config.container_labels;
  annotations = i.config.container_annotations;
}

unfoldable pub container_info_to_cri_status : ContainerInfo → CriContainerStatus
unfolding container_metadata
container_info_to_cri_status i = record {
  id = i.id;
  metadata = container_metadata i;
  image = i.config.image;
  state = i.state;
  created_at = i.created_at;
  started_at = i.started_at;
  labels = i.config.container_labels;
  annotations = i.config.container_annotations;
  mounts = i.config.mounts;
  log_path = join i.config.log_directory i.config.log_path;
}

unfoldable pub vm_stats_to_cri : VmStats → Str → CriStats
vm_stats_to_cri vs mountpoint = record {
  id = vs.container_id;
  name = vs.container_id;
  timestamp = vs.timestamp;
  usage_core_nano_seconds = vs.cpu_usage;
  working_set_bytes = vs.memory_usage;
  mountpoint = mountpoint;
  used_bytes = vs.fs_bytes;
  inodes_used = 1;
}
