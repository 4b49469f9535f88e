-- ===== src/Tests/Vms.antt =====
-- The tool's theorems on the test machine.
use virtlet.Prelude.{Str, codes, str_eq, Option, none, some, if◌then◌else◌, ◌≡◌, ◌≢◌, refl, arith}
use virtlet.Result.{ok, err, fault, out_of_rounds, domain_not_found}
use virtlet.Prog.{◌>>=◌, annotate, attempt}
use virtlet.Types.{ContainerInfo, ContainerState}
use virtlet.Types.Domain.{DomainState}
use virtlet.Tool.State.{Sys, on_world, on_meta}
use virtlet.Tool.Wait.Loop.{wait_loop, wait_rounds}
use virtlet.Tool.Wait.Ends.{IsTimely, wait_loop_ends}
use virtlet.Tool.Lifecycle.{
  stop_container, stop_test, shutdown_once, cleanup_volumes, teardown_volumes, start_container,
  start_test, start_verdict, remove_container, remove_domain, get_vm_config_from_metadata,
}
use virtlet.Tool.Query.{container_info, refresh, virt_to_kube_state, same_state}
use virtlet.Tool.Refresh.{Refreshed, container_info-Refreshed}
use virtlet.Tool.Stopped.{Ended, Stopped, stop_container-Stopped}
use virtlet.World.{World}
use virtlet.Types.Annotations.{disk_driver_scsi}
use virtlet.DiskList.{new_disk_list, teardown_disks, assign_drivers, teardown_errors}
use virtlet.Disk.Driver.{get_disk_driver_factory, make_driver}
use virtlet.Tool.Remove.{SeenGone, Dropped, remove_container-Dropped}
use virtlet.Tests.Machine.{parsed, Machine, machine, machine-IsClock, fresh}
use virtlet.Tests.Shelf.{shelf, shelf-StoreLaws, with_one, some_info, some_config}

abbrev vm_id : Str
vm_id = codes "0123456789abcdef"

abbrev before : Sys Machine (Str → Option ContainerInfo)
before = record { world = fresh; meta = with_one }

abbrev after_start : Sys Machine (Str → Option ContainerInfo)
after_start = (start_container machine shelf vm_id before).1

abbrev running : Sys Machine (Str → Option ContainerInfo)
running = record before { world = record fresh { state = DomainState.running } }

start_test-IsTimely : IsTimely machine (start_test machine shelf vm_id)
unfolding start_test on_world ◌>>=◌ annotate start_verdict
start_test-IsTimely = record { takes_time = λ s. ground arith; answers = λ s e. ground arith }

-- 25 rounds of the loop for a domain that stays shut off.
wait_loop_ends_example :
    (wait_loop machine (start_test machine shelf vm_id) 250 6000 before).0 ≢ fault out_of_rounds
wait_loop_ends_example =
    wait_loop_ends machine (start_test machine shelf vm_id) 250 6000 machine-IsClock
      start_test-IsTimely (omega arith) before

waits : wait_loop machine (start_test machine shelf vm_id) 250 6000 running ≡ (ok tt, running)
unfolding start_test start_verdict on_world ◌>>=◌ annotate wait_loop wait_rounds str_eq
waits = refl

abbrev refreshed_info : ContainerInfo
refreshed_info = record some_info { state = ContainerState.running }

abbrev after_info : Sys Machine (Str → Option ContainerInfo)
after_info = (container_info machine shelf vm_id running).1

informs : container_info machine shelf vm_id running ≡ (ok (some refreshed_info), after_info)
unfolding container_info refresh virt_to_kube_state same_state on_world on_meta ◌>>=◌ annotate
    attempt str_eq
informs = refl

container_info-Refreshed_example :
    (d : Str) × ((machine.lookup_domain_by_uuid_string vm_id running.world).0 ≡ ok d)
    × ((old : ContainerInfo) × ((shelf.retrieve vm_id running.meta).0 ≡ ok (some old))
        × Refreshed machine shelf vm_id d old running.meta after_info.meta after_info.world
            refreshed_info)
container_info-Refreshed_example =
    container_info-Refreshed machine shelf shelf-StoreLaws vm_id running after_info refreshed_info
      informs

-- A machine that has lost its domain, and a container whose volumes can be listed.
abbrev lost : World
lost = record machine { lookup_domain_by_uuid_string = λ n w. (err domain_not_found, w) }

abbrev removable : ContainerInfo
removable = record some_info {
  config = record some_config {
    parsed_annotations = some (record parsed { disk_driver = disk_driver_scsi });
  };
}

abbrev with_removable : Sys Machine (Str → Option ContainerInfo)
with_removable = record {
  world = fresh;
  meta = λ id. if str_eq id vm_id then some removable else none;
}

abbrev after_removal : Sys Machine (Str → Option ContainerInfo)
after_removal = (remove_container lost shelf vm_id with_removable).1

stored_before : (shelf.retrieve vm_id with_removable.meta).0 ≡ ok (some removable)
unfolding str_eq
stored_before = refl

removes : remove_container lost shelf vm_id with_removable ≡ (ok tt, after_removal)
unfolding remove_container remove_domain get_vm_config_from_metadata on_world on_meta ◌>>=◌ annotate
    attempt str_eq new_disk_list get_disk_driver_factory assign_drivers make_driver teardown_disks
    teardown_errors
removes = refl

remove_container-Dropped_example :
    SeenGone lost shelf vm_id × Dropped lost shelf vm_id after_removal.meta
remove_container-Dropped_example =
    remove_container-Dropped lost shelf shelf-StoreLaws vm_id removable with_removable after_removal
      stored_before removes

abbrev to_stop : Sys Machine (Str → Option ContainerInfo)
to_stop = record with_removable { world = record fresh { state = DomainState.running } }

abbrev after_stop : Sys Machine (Str → Option ContainerInfo)
after_stop = (stop_container machine shelf vm_id 10000000000 to_stop).1

stops : stop_container machine shelf vm_id 10000000000 to_stop ≡ (ok tt, after_stop)
unfolding stop_container stop_test shutdown_once wait_loop wait_rounds get_vm_config_from_metadata
    cleanup_volumes teardown_volumes on_world on_meta ◌>>=◌ annotate attempt str_eq new_disk_list
    get_disk_driver_factory assign_drivers make_driver teardown_disks teardown_errors
stops = refl

stop_container-Stopped_example :
    Ended machine shelf vm_id to_stop.world
    × Stopped machine shelf vm_id to_stop.meta after_stop.meta
stop_container-Stopped_example =
    stop_container-Stopped machine shelf shelf-StoreLaws vm_id 10000000000 to_stop after_stop stops
