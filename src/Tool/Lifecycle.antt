-- ===== src/Tool/Lifecycle.antt =====
-- virtualization.go: starting, stopping and removing a container.
use virtlet.Prelude.{ℕ, Str, Bool, true, false, ◌||◌, Option, none, some, if◌then◌else◌}
use virtlet.Result.{Result, ok, err, fault, errorf, wrap, is_not_found}
use virtlet.Prog.{Prog, pure, raise, crash, lift, get_state, attempt, annotate, ◌>>=◌, ◌>>◌}
use virtlet.Types.{
  VmConfig, ContainerInfo, ContainerState, created, running, exited, unknown, ContainerSideNetwork,
}
use virtlet.Types.Domain.{DomainState}
use virtlet.World.{World}
use virtlet.MetaStore.{MetaStore, Updater}
use virtlet.DiskList.{new_disk_list, write_images, teardown_disks}
use virtlet.Tool.State.{Sys, on_world, on_meta}
use virtlet.Tool.Wait.Loop.{wait_loop}

-- Nanoseconds.
abbrev pub domain_start_check_interval : ℕ
domain_start_check_interval = 250_000_000

abbrev pub domain_start_timeout : ℕ
domain_start_timeout = 10_000_000_000

abbrev pub domain_shutdown_retry_interval : ℕ
domain_shutdown_retry_interval = 5_000_000_000

abbrev domain_destroy_check_interval : ℕ
domain_destroy_check_interval = 500_000_000

abbrev domain_destroy_timeout : ℕ
domain_destroy_timeout = 5_000_000_000

abbrev pub is_shutoff : DomainState → Bool
is_shutoff DomainState.shutoff = true
is_shutoff _ = false

abbrev pub is_running : ContainerState → Bool
is_running running = true
is_running _ = false

abbrev pub is_created : ContainerState → Bool
is_created created = true
is_created _ = false

-- The handlers that the tool gives to Save. A container that was removed meanwhile stays removed.
abbrev pub mark_running : ℕ → Updater ContainerInfo
mark_running now none = ok none
mark_running now (some c) = ok (some (record c { state = running; started_at = now }))

abbrev pub set_state : ContainerState → Updater ContainerInfo
set_state st none = ok none
set_state st (some c) = ok (some (record c { state = st }))

abbrev pub set_network : Option ContainerSideNetwork → Updater ContainerInfo
set_network csn none = ok none
set_network csn (some c) =
    ok (some (record c { config = record c.config { container_side_network = csn } }))

abbrev pub delete_container : Updater ContainerInfo
delete_container c = ok none

-- The answer of the start loop's test to the state of the domain.
unfoldable pub start_verdict : DomainState → Result Bool
start_verdict DomainState.running = ok true
start_verdict DomainState.shutdown = err (errorf "unexpected shutdown for new domain")
start_verdict DomainState.crashed = err (errorf "domain crashed on start")
start_verdict _ = ok false

module _ (x : World) (m : MetaStore) where
  open x use {W, Domain, lookup_domain_by_uuid_string}
  open m use {St, retrieve, save}

  abbrev pub P : Type 0 → Type 0
  P A = Prog (Sys W St) A

  unfoldable pub start_test : Domain → P Bool
  unfolding start_verdict
  start_test domain = do
    st ← annotate "failed to get state of the domain" (on_world (x.state domain))
    lift (start_verdict st)

  unfoldable pub start_container : Str → P (Unit {0})
  start_container id = do
    domain ← annotate "failed to look up domain" (on_world (lookup_domain_by_uuid_string id))
    st ← annotate "failed to get state of the domain" (on_world (x.state domain))
    if is_shutoff st then pure tt else raise (errorf "bad state upon StartContainer()")
    annotate "failed to create domain" (on_world (x.create domain))
    wait_loop x (start_test domain) domain_start_check_interval domain_start_timeout
    s ← get_state
    on_meta (save id (mark_running (x.now s.world)))

  -- What the stop loop's test does with the domain that is still there.
  unfoldable pub shutdown_once : Domain → P Bool
  shutdown_once domain = do
    sent ← attempt (on_world (x.shutdown domain))
    st ← annotate "failed to get state of the domain" (on_world (x.state domain))
    if is_shutoff st then pure true else elim sent [
      | ok u ↦ pure false
      | err e ↦ raise (errorf "failed to shut down domain")
      | fault f ↦ crash f
    ]

  unfoldable pub stop_test : Str → Domain → P Bool
  unfolding shutdown_once
  stop_test id domain = do
    found ← attempt (on_world (lookup_domain_by_uuid_string id))
    elim found [
      | ok d ↦ shutdown_once domain
      | err e ↦ if is_not_found e then pure true else raise (wrap "failed to look up the domain" e)
      | fault f ↦ crash f
    ]

  -- A nil config means that the container is already removed.
  abbrev pub config_and_state : Option ContainerInfo → Option VmConfig × ContainerState
  config_and_state none = (none, unknown)
  config_and_state (some c) = (some c.config, c.state)

  unfoldable pub get_vm_config_from_metadata : Str → P (Option VmConfig × ContainerState)
  get_vm_config_from_metadata id = do info ← on_meta (retrieve id); pure (config_and_state info)

  -- newDiskList and, if it succeeds, teardown
  unfoldable pub teardown_volumes : VmConfig → P (Unit {0})
  teardown_volumes config = on_world (new_disk_list x config >>= teardown_disks x)

  -- Its errors are logged and dropped.
  unfoldable pub cleanup_volumes : Str → P (Unit {0})
  unfolding get_vm_config_from_metadata teardown_volumes
  cleanup_volumes id = do
    found ← get_vm_config_from_metadata id
    elim found.0 [
      | none ↦ pure tt
      | some config ↦ (do _ ← attempt (teardown_volumes config); pure tt)
    ]

  unfoldable pub stop_container : Str → ℕ → P (Unit {0})
  unfolding stop_test cleanup_volumes
  stop_container id timeout = do
    domain ← on_world (lookup_domain_by_uuid_string id)
    stopped ← attempt (wait_loop x (stop_test id domain) domain_shutdown_retry_interval timeout)
    elim stopped [
      | ok u ↦ pure tt
      | err e ↦ annotate "failed to destroy the domain" (on_world (x.destroy domain))
      | fault f ↦ crash f
    ]
    on_meta (save id (set_state exited))
    cleanup_volumes id

  -- true once libvirt no longer finds the domain
  unfoldable pub gone_test : Str → P Bool
  gone_test id = do
    found ← attempt (on_world (lookup_domain_by_uuid_string id))
    elim found [
      | ok d ↦ pure false
      | err e ↦ if is_not_found e then pure true else raise (wrap "error looking up domain" e)
      | fault f ↦ crash f
    ]

  -- The part of removeDomain for a domain that was found.
  unfoldable pub undefine_domain : Str → ContainerState → Domain → P (Unit {0})
  unfolding gone_test
  undefine_domain id st domain = do
    if is_running st
        then annotate "failed to destroy the domain" (on_world (x.destroy domain))
        else pure tt
    annotate "error undefining the domain" (on_world (x.undefine domain))
    wait_loop x (gone_test id) domain_destroy_check_interval domain_destroy_timeout

  unfoldable pub remove_domain : Str → VmConfig → ContainerState → Bool → P (Unit {0})
  unfolding undefine_domain teardown_volumes
  remove_domain id config st fail_upon_volume_teardown_failure = do
    found ← attempt (on_world (lookup_domain_by_uuid_string id))
    elim found [
      | ok domain ↦ undefine_domain id st domain
      | err e ↦ if is_not_found e then pure tt else raise e
      | fault f ↦ crash f
    ]
    torn ← attempt (teardown_volumes config)
    elim torn [
      | ok u ↦ pure tt
      | err e ↦ if fail_upon_volume_teardown_failure then raise e else pure tt
      | fault f ↦ crash f
    ]

  -- The result of the last Save is not tested: the `err` of the source's `if` is the one of
  -- getVMConfigFromMetadata, which is nil there.
  unfoldable pub remove_container : Str → P (Unit {0})
  unfolding get_vm_config_from_metadata
  remove_container id = do
    found ← get_vm_config_from_metadata id
    elim found.0 [
      | none ↦ pure tt
      | some config ↦ (do
        remove_domain id config found.1 (is_created found.1 || is_running found.1)
        _ ← attempt (on_meta (save id delete_container))
        pure tt)
    ]

  unfoldable pub update_disk_images : Str → P (Unit {0})
  unfolding get_vm_config_from_metadata
  update_disk_images id = do
    domain ← annotate "failed to look up domain" (on_world (lookup_domain_by_uuid_string id))
    found ← get_vm_config_from_metadata id
    elim found.0 [
      | none ↦ pure tt
      | some config ↦ on_world (new_disk_list x config >>= write_images x domain)
    ]

  unfoldable pub update_container_network : Str → Option ContainerSideNetwork → P (Unit {0})
  unfolding update_disk_images
  update_container_network id csn = do
    annotate "error updating container info" (on_meta (save id (set_network csn)))
    annotate "error updating disk images" (update_disk_images id)
