-- ===== src/Tool/Cpusets.antt =====
-- cpusets.go: pinning the emulator of a VM to CPUs.
use virtlet.Prelude.{
  Str, codes, str_eq, Bool, true, false, not, ◌&&◌, ◌||◌, Option, none, some, List, [], ◌∷◌, ◌++◌,
  if◌then◌else◌,
}
use virtlet.Result.{Result, ok, err, fault, panic}
use virtlet.Prog.{pure, raise, crash, lift, attempt, ◌>>=◌, ◌>>◌}
use virtlet.World.{World}
use virtlet.MetaStore.{MetaStore}
use virtlet.Cgroups.{cut, get_process_controller, line_end, set}
use virtlet.Tool.State.{on_world, on_meta}
use virtlet.Tool.Lifecycle.{P}
use virtlet.Tool.Create.{first_13}

abbrev pub cpusets_env_var_name : Str
cpusets_env_var_name = codes "VIRTLET_CPUSETS"

-- Whether the loop over the variables has found the one for the CPUs. The loop assigns to the
-- copies that it ranges over, which changes no variable.
unfoldable pub names_cpusets : List (Str × Str) → Bool
names_cpusets [] = false
names_cpusets ((name, value) ∷ envs) = str_eq name cpusets_env_var_name || names_cpusets envs

unfoldable pub with_cpusets : Str → List (Str × Str) → List (Str × Str)
with_cpusets cpusets envs =
    if not (names_cpusets envs) && not (str_eq cpusets [])
    then envs ++ (cpusets_env_var_name, cpusets) ∷ []
    else envs

-- getEmulatorPidFileLocation's format
unfoldable pub pid_file : Str → Str → Str
pid_file id_start pod_name =
    codes "/run/libvirt/qemu/virtlet-" ++ (id_start ++ (codes "-" ++ (pod_name ++ codes ".pid")))

-- Up to and with the first line end; all that there is where none follows.
abbrev pub line_of : Str → Option (Str × Str) → Str
line_of text none = text
line_of text (some (line, rest)) = line ++ line_end ∷ []

module _ (x : World) (m : MetaStore) where
  unfoldable pub update_cpusets_in_container_definition : Str → Str → P x m (Unit {0})
  unfolding with_cpusets names_cpusets
  update_cpusets_in_container_definition id cpusets = do
    domain ← on_world (x.lookup_domain_by_uuid_string id)
    d ← on_world (x.xml domain)
    on_world (x.undefine domain)
    _ ← on_world (x.define_domain (record d { envs = with_cpusets cpusets d.envs }))
    pure tt

  -- A container with no record is a nil pointer.
  unfoldable pub get_emulator_pid_file_location : Str → P x m Str
  unfolding pid_file
  get_emulator_pid_file_location id = do
    container ← on_meta (m.retrieve id)
    elim container [
      | none ↦ crash panic
      | some c ↦ (do start ← lift (first_13 id); pure (pid_file start c.config.pod_name))
    ]

  -- The part for an emulator whose pid file holds `text`.
  unfoldable pub set_cpusets_of : Str → Str → P x m Bool
  set_cpusets_of text cpusets = do
    controller ←
        on_world (get_process_controller x (line_of text (cut line_end text)) (codes "cpuset"))
    on_world (set x controller (codes "cpus") cpusets)
    pure true

  -- With no pid file there is no emulator yet.
  abbrev pub set_if_read : Str → Result Str → P x m Bool
  set_if_read cpusets (ok text) = set_cpusets_of text cpusets
  set_if_read cpusets (err e) = if x.is_path_error e then pure false else raise e
  set_if_read cpusets (fault f) = crash f

  unfoldable pub update_cpusets_for_emulator_process : Str → Str → P x m Bool
  unfolding get_emulator_pid_file_location set_cpusets_of
  update_cpusets_for_emulator_process id cpusets = do
    path ← get_emulator_pid_file_location id
    text ← attempt (on_world (x.get_delimited_reader path))
    set_if_read cpusets text
