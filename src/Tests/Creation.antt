-- ===== src/Tests/Creation.antt =====
-- Creating a container on the test machine.
use virtlet.Prelude.{Str, codes, str_eq, Option, none, false, [], ◌≡◌, refl}
use virtlet.Result.{ok}
use virtlet.Prog.{◌>>=◌, annotate, attempt, unless_ok}
use virtlet.World.{World}
use virtlet.Types.{ContainerInfo}
use virtlet.Types.Annotations.{load_annotations}
use virtlet.Disk.Driver.{get_disk_driver_factory, make_driver}
use virtlet.DiskList.{
  new_disk_list, assign_drivers, setup_disks, setup_from, setup_item, write_images,
}
use virtlet.Tool.State.{Sys, on_world, on_meta}
use virtlet.Tool.Settings.{VirtualizationConfig}
use virtlet.Tool.Create.{create_container, define_and_save, first_13, with_labels}
use virtlet.Tool.Created.{Created, create_container-Created}
use virtlet.Tests.Machine.{Machine, machine, fresh}
use virtlet.Tests.Shelf.{shelf, shelf-StoreLaws, some_config}

-- The test machine, with volumes that need no image written.
abbrev creator : World
creator = record machine { volume_uuid = λ v. [] }

abbrev settings : VirtualizationConfig
settings = record {
  disable_kvm = false;
  enable_sriov = false;
  streamer_socket_path = codes "/run/streamer.sock";
  cpu_model = [];
}

abbrev before : Sys Machine (Str → Option ContainerInfo)
before = record { world = fresh; meta = λ id. none }

abbrev new_id : Str
new_id = codes "67b7fb47-7735-4b64-86d2-6d062d121966pod1"

abbrev after : Sys Machine (Str → Option ContainerInfo)
after = (create_container creator shelf settings some_config (codes "key") before).1

creates :
    create_container creator shelf settings some_config (codes "key") before ≡ (ok new_id, after)
unfolding create_container load_annotations get_disk_driver_factory make_driver new_disk_list
    assign_drivers setup_disks setup_from setup_item write_images on_world on_meta ◌>>=◌ annotate
    attempt unless_ok define_and_save first_13 with_labels str_eq
creates = refl

create_container-Created_example :
    Created creator shelf settings some_config (codes "key") new_id before after
create_container-Created_example =
    create_container-Created creator shelf settings shelf-StoreLaws some_config (codes "key") new_id
      before after creates
