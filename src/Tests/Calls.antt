-- ===== src/Tests/Calls.antt =====
-- A request for a second container of a pod, and the CPUs of an emulator.
use virtlet.Prelude.{
  take, arith, Str, codes, str_eq, false, Option, none, some, if◌then◌else◌, List, [], ◌∷◌, ◌≡◌,
  ◌↔◌, refl, sym,
}
use virtlet.Result.{ok, err, errorf}
use virtlet.Prog.{◌>>=◌, annotate, attempt}
use virtlet.Types.{ContainerInfo, PodSandboxInfo, ready}
use virtlet.Types.Annotations.{disk_driver_scsi}
use virtlet.World.{World}
use virtlet.MetaStore.{MetaStore, SandboxLaws, StoreLaws}
use virtlet.DiskList.{assign_drivers, new_disk_list, write_images}
use virtlet.Disk.Driver.{get_disk_driver_factory, make_driver}
use virtlet.Cgroups.{controllers_of, lines}
use virtlet.Cgroups.Parsing.{Entry, AreEntries, controllers_of-text_of, lacks, table, text_of}
use virtlet.Tool.State.{on_meta, on_world}
use virtlet.Tool.Settings.{VirtualizationConfig}
use virtlet.Tool.Create.{domain_name_of}
use virtlet.Tool.Pinning.{libvirt_pid_file, get_emulator_pid_file_location-named}
use virtlet.Tool.Cpusets.{get_emulator_pid_file_location}
use virtlet.Tool.Lifecycle.{
  get_vm_config_from_metadata, update_container_network, update_disk_images,
}
use virtlet.Runtime.Messages.{CreateContainerRequest}
use virtlet.Runtime.Host.{Host, on_store, on_sys}
use virtlet.Runtime.Containers.{create_container, create_in}
use virtlet.Tests.Machine.{Machine, machine, parsed, fresh}
use virtlet.Tests.Shelf.{shelf, shelf-StoreLaws, some_config, some_info}
use virtlet.Tests.Cabin.{Keys, keys}

abbrev vm_id : Str
vm_id = codes "0123456789abcdef"

abbrev pub pod : PodSandboxInfo
pod = record {
  pod_id = codes "pod1";
  config = record {
    name = codes "pod";
    uid = codes "pod1";
    namespace = codes "default";
    attempt = 0;
    hostname = [];
    log_directory = [];
    dns_config = record { servers = []; searches = []; options = [] };
    port_mappings = [];
    labels = [];
    annotations = [];
    cgroup_parent = [];
  };
  created_at = 10;
  state = ready;
  container_side_network = some (record { result = none; ns_path = codes "/ns" });
}

-- A store with one pod, which cannot be changed, and its container.
abbrev pub podded : MetaStore
podded = record shelf {
  retrieve_sandbox = λ id s. (ok (some pod), s);
  save_sandbox = λ id f s. (err (errorf "read only"), s);
  list_pod_containers = λ p s. (ok (vm_id ∷ []), s);
}

podded-StoreLaws : StoreLaws podded
podded-StoreLaws = record {
  pure_retrieve = shelf-StoreLaws.pure_retrieve;
  saved = shelf-StoreLaws.saved;
  kept = shelf-StoreLaws.kept;
  rolled_back = shelf-StoreLaws.rolled_back;
}

podded-SandboxLaws : SandboxLaws podded
podded-SandboxLaws = record {
  pure_retrieve_sandbox = λ id s. refl;
  saved_sandbox =
      λ id f s s' h. let k : err (errorf "read only") ≡ ok tt = λ i. (h i).0 in absurd (cc);
  kept_sandbox = λ id j f s s' h ne. refl;
  rolled_back_sandbox = λ id f s s' r h failed. sym (λ i. (h i).1);
}

abbrev pub settings : VirtualizationConfig
settings = record {
  disable_kvm = false;
  enable_sriov = false;
  streamer_socket_path = [];
  cpu_model = [];
}

abbrev stored_info : ContainerInfo
stored_info = record some_info {
  config = record some_config {
    parsed_annotations = some (record parsed { disk_driver = disk_driver_scsi });
  };
}

abbrev pub for_one_more : CreateContainerRequest
for_one_more = record {
  pod_sandbox_id = codes "pod1";
  config = some (record {
    metadata = some (record { name = codes "vm"; attempt = 0 });
    image = some (codes "cirros");
    envs = [];
    mounts = [];
    devices = [];
    labels = [];
    annotations = [];
    log_path = [];
    linux = none;
  });
  sandbox_config = none;
}

-- A machine whose containers have no volumes.
abbrev pub bare : World
bare = record machine { volume_source = λ c w. (ok [], w) }

abbrev before : Host Machine (Str → Option ContainerInfo) Keys
before = record {
  sys = record { world = fresh; meta = λ id. if str_eq id vm_id then some stored_info else none };
  services = λ k. false;
}

abbrev after : Host Machine (Str → Option ContainerInfo) Keys
after = (create_container bare podded keys settings for_one_more before).1

creates : create_container bare podded keys settings for_one_more before ≡ (ok vm_id, after)
unfolding create_container create_in update_container_network update_disk_images
    get_vm_config_from_metadata on_store on_sys on_world on_meta ◌>>=◌ annotate attempt str_eq
    new_disk_list get_disk_driver_factory assign_drivers make_driver write_images
creates = refl

-- /proc/self/cgroup
abbrev entries : List Entry
entries =
    record { number = codes "2"; name = codes "cpuset"; path = codes "/vm:1" }
    ∷ record { number = codes "1"; name = codes "name=systemd"; path = codes "/user" }
    ∷ []

entries-AreEntries : AreEntries entries
unfolding lacks
entries-AreEntries = (
  record {
    number_colon = refl;
    name_colon = refl;
    number_end = refl;
    name_end = refl;
    path_end = refl;
  },
  (
    record {
      number_colon = refl;
      name_colon = refl;
      number_end = refl;
      name_end = refl;
      path_end = refl;
    },
    tt,
  ),
)

controllers_of-text_of_example : controllers_of (lines (text_of entries)) [] ≡ ok (table entries [])
controllers_of-text_of_example = controllers_of-text_of entries [] entries-AreEntries

get_emulator_pid_file_location-named_example :
    ((get_emulator_pid_file_location bare podded vm_id before.sys).0
      ≡ ok (libvirt_pid_file (domain_name_of (take 13 vm_id) stored_info.config.name)))
    ↔ (stored_info.config.pod_name ≡ stored_info.config.name)
unfolding str_eq
get_emulator_pid_file_location-named_example =
    get_emulator_pid_file_location-named bare podded vm_id stored_info before.sys refl (omega arith)
