-- ===== src/Tool/Create.antt =====
-- virtualization.go: CreateContainer.
use virtlet.Prelude.{
  ℕ, zero, suc, Str, codes, str_eq, Bool, true, false, Option, none, some, List, [], ◌∷◌, ◌++◌, ltb,
  take, length, if◌then◌else◌,
}
use virtlet.Prelude.Int.{ℤ, pos, negsuc, quot, neg, to_u64}
use virtlet.Result.{Result, ok, fault, panic}
use virtlet.Prog.{pure, lift, get_state, attempt, unless_ok, ◌>>=◌, ◌>>◌}
use virtlet.Types.{VmConfig, ContainerInfo, StrMap, created, unknown}
use virtlet.Types.Domain.{DomainDef, DiskDef, FilesystemDef}
use virtlet.Types.Annotations.{VirtletAnnotations, load_annotations}
use virtlet.World.{World}
use virtlet.MetaStore.{MetaStore, Updater}
use virtlet.DiskList.{DiskItem, new_disk_list, setup_disks, write_images, teardown_disks}
use virtlet.Tool.State.{on_world, on_meta}
use virtlet.Tool.Settings.{
  VirtualizationConfig, DomainSettings, create_domain, add_serial_devices_to_domain,
}
use virtlet.Tool.Lifecycle.{P, remove_domain}

abbrev pub container_ns_uuid : Str
container_ns_uuid = codes "67b7fb47-7735-4b64-86d2-6d062d121966"

abbrev kubernetes_pod_name_label : Str
kubernetes_pod_name_label = codes "io.kubernetes.pod.name"

abbrev kubernetes_pod_namespace_label : Str
kubernetes_pod_namespace_label = codes "io.kubernetes.pod.namespace"

abbrev kubernetes_pod_uid_label : Str
kubernetes_pod_uid_label = codes "io.kubernetes.pod.uid"

abbrev kubernetes_container_name_label : Str
kubernetes_container_name_label = codes "io.kubernetes.container.name"

-- m[k] = v
unfoldable pub put : Str → Str → StrMap → StrMap
put k v [] = (k, v) ∷ []
put k v ((j, w) ∷ m) = if str_eq j k then (k, v) ∷ m else (j, w) ∷ put k v m

negate : ℤ → ℤ
negate (pos k) = neg k
negate (negsuc k) = pos (suc k)

-- a / b, which panics where b is 0
divide : ℤ → ℤ → Result ℤ
divide a (pos zero) = fault panic
divide a (pos (suc n)) = ok (quot a (suc n))
divide a (negsuc n) = ok (quot (negate a) (suc n))

is_zero : ℤ → Bool
is_zero (pos zero) = true
is_zero _ = false

-- s[:13], which panics on a shorter string
unfoldable pub first_13 : Str → Result Str
first_13 s = if ltb (length s) 13 then fault panic else ok (take 13 s)

or_empty : Str → Str → Str
or_empty s d = if str_eq s [] then d else s

pub uuid_or : Option Str → Str → Str
uuid_or none u = u
uuid_or (some s) u = s

unfoldable pub with_labels : VmConfig → VmConfig
unfolding put
with_labels c = record c {
  container_labels = put kubernetes_container_name_label c.name (
      put kubernetes_pod_uid_label c.pod_sandbox_id (
        put kubernetes_pod_namespace_label c.pod_namespace
          (put kubernetes_pod_name_label c.pod_name c.container_labels)));
}

-- "virtlet-" + domainUUID[:13] + "-" + config.Name
unfoldable pub domain_name_of : Str → Str → Str
domain_name_of uuid_start name = codes "virtlet-" ++ (uuid_start ++ (codes "-" ++ name))

-- The domainSettings of CreateContainer, with the default for an unset memory limit.
unfoldable pub settings_of :
    VirtualizationConfig → VmConfig → VirtletAnnotations → Str → Str → ℤ → Str → DomainSettings
unfolding is_zero or_empty domain_name_of
settings_of vc config va net_fd_key name_prefix quota uuid = record {
  use_kvm = if vc.disable_kvm then false else true;
  domain_name = domain_name_of name_prefix config.name;
  domain_uuid = uuid;
  memory = if is_zero config.memory_limit_in_bytes then pos 1024 else config.memory_limit_in_bytes;
  memory_unit = if is_zero config.memory_limit_in_bytes then codes "MiB" else codes "b";
  vcpu_num = va.vcpu_count;
  cpu_shares = to_u64 config.cpu_shares;
  cpu_period = to_u64 config.cpu_period;
  cpu_quota = quota;
  net_fd_key = net_fd_key;
  enable_sriov = vc.enable_sriov;
  cpu_model = or_empty va.cpu_model vc.cpu_model;
  system_uuid = va.system_uuid;
}

abbrev pub new_container : ℕ → VmConfig → Updater ContainerInfo
new_container now config current = ok (
    some (record {
      id = [];
      name = config.name;
      created_at = now;
      started_at = 0;
      state = created;
      config = config;
    }))

module _ (x : World) (m : MetaStore) (vc : VirtualizationConfig) where
  open x use {W, Domain, Volume}
  open m use {St, save}

  -- From DefineDomain to the end, the part whose failure is cleaned up after.
  unfoldable pub define_and_save : VmConfig → DomainDef → List (DiskItem Volume) → P x m (Unit {0})
  define_and_save config domain_def items = do
    domain ← on_world (x.define_domain domain_def)
    on_world (write_images x domain items)
    s ← get_state
    on_meta (save config.domain_uuid (new_container (x.now s.world) config))

  -- The deferred function; its errors are logged.
  pub undo_create : VmConfig → List (DiskItem Volume) → P x m (Unit {0})
  undo_create config items = do
    _ ← attempt (remove_domain x m config.domain_uuid config unknown true)
    _ ← attempt (on_world (teardown_disks x items))
    pure tt

  -- Devices.Disks and Devices.Filesystems, then the serial devices.
  unfoldable pub complete : DomainDef → List DiskDef × List FilesystemDef → DomainDef
  complete d (disks, filesystems) =
      add_serial_devices_to_domain vc
        (record d { devices = record d.devices { disks = disks; filesystems = filesystems } })

  unfoldable pub create_container : VmConfig → Str → P x m Str
  unfolding settings_of divide negate complete define_and_save undo_create uuid_or
  create_container config net_fd_key = do
    va ← lift (load_annotations x.parse_pod_annotations config.pod_namespace config.pod_annotations)
    let uuid = uuid_or va.system_uuid (x.new_uuid5 container_ns_uuid config.pod_sandbox_id)
    let c = record config { parsed_annotations = some va; domain_uuid = uuid }
    name_prefix ← lift (first_13 uuid)
    quota ← lift (divide config.cpu_quota va.vcpu_count)
    let domain_def = create_domain (settings_of vc config va net_fd_key name_prefix quota uuid) c va
    items ← on_world (new_disk_list x c)
    defs ← on_world (setup_disks x items)
    unless_ok (define_and_save (with_labels c) (complete domain_def defs) items)
        (undo_create (with_labels c) items)
    pure uuid
