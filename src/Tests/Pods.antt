-- ===== src/Tests/Pods.antt =====
-- Pods that are run and stopped, and a network that cannot be set up.
use virtlet.Prelude.{Str, codes, str_eq, false, Option, none, some, [], ◌≡◌, ◌⊎◌, refl}
use virtlet.Result.{Result, ok, err, errorf, wrap}
use virtlet.Prog.{◌>>=◌, annotate, attempt, unless_err}
use virtlet.Types.{ContainerSideNetwork, PodSandboxInfo, ready, not_ready}
use virtlet.MetaStore.{pod_record}
use virtlet.Runtime.Messages.{CriPodConfig, PodSandboxMetadata}
use virtlet.Runtime.Host.{Host, on_services, on_store}
use virtlet.Runtime.Pods.{
  is_ready, new_pod_sandbox_info, release_quietly, run_known, run_pod_sandbox, run_valid,
  set_up_pod, side_network, stop_known, stop_pod_sandbox,
}
use virtlet.Runtime.Undone.{added, run_pod_sandbox-Undone}
use virtlet.Runtime.Stopping.{Stopped, stop_pod_sandbox-Stopped}
use virtlet.Tests.Machine.{Machine, machine, fresh}
use virtlet.Tests.Cabin.{Cabin, cabin, cabin-SandboxLaws, Keys, keys}

abbrev parse : Str → Result (Option ContainerSideNetwork)
parse s = ok (some (record { result = none; ns_path = s }))

abbrev pod_named : Str → PodSandboxMetadata
pod_named id = record { name = codes "p"; uid = id; namespace = codes "default"; attempt = 0 }

abbrev pub config_of : Str → CriPodConfig
config_of id = record {
  metadata = some (pod_named id);
  hostname = [];
  log_directory = [];
  dns_config = none;
  port_mappings = [];
  labels = [];
  annotations = [];
  linux = none;
}

abbrev before : Host Machine Cabin Keys
before = record { sys = record { world = fresh; meta = λ id. none }; services = λ k. false }

abbrev run : Str → Host Machine Cabin Keys → Result Str × Host Machine Cabin Keys
run id = run_pod_sandbox machine cabin keys parse (some (config_of id))

abbrev after_run : Host Machine Cabin Keys
after_run = (run (codes "a") before).1

abbrev after_failure : Host Machine Cabin Keys
after_failure = (run (codes "bad") before).1

fails :
    run (codes "bad") before
    ≡ (err (wrap "Error adding pod to CNI network" (errorf "error from CNI")), after_failure)
unfolding run_pod_sandbox run_valid run_known set_up_pod new_pod_sandbox_info side_network
    release_quietly on_store on_services ◌>>=◌ attempt annotate unless_err str_eq
fails = refl

not_there : is_ready (pod_record cabin (codes "bad") before.sys.meta) ≡ false
not_there = refl

run_pod_sandbox-Undone_example : after_failure ≡ record before {
  services =
      ((keys {St = Cabin}).release_fds (codes "bad") (
        added machine cabin cabin-SandboxLaws keys parse
          (config_of (codes "bad"))
          (pod_named (codes "bad"))
          before)).1;
}
run_pod_sandbox-Undone_example =
    run_pod_sandbox-Undone machine cabin cabin-SandboxLaws keys parse (config_of (codes "bad"))
      (pod_named (codes "bad")) before after_failure
      (wrap "Error adding pod to CNI network" (errorf "error from CNI")) refl not_there fails

abbrev after_stop : Host Machine Cabin Keys
after_stop = (stop_pod_sandbox machine cabin keys (codes "a") after_run).1

stops : stop_pod_sandbox machine cabin keys (codes "a") after_run ≡ (ok tt, after_stop)
unfolding run_pod_sandbox run_valid run_known set_up_pod new_pod_sandbox_info side_network
    stop_pod_sandbox stop_known on_store on_services ◌>>=◌ attempt annotate unless_err str_eq
stops = refl

stop_pod_sandbox-Stopped_example :
    (p : PodSandboxInfo) × (pod_record cabin (codes "a") after_run.sys.meta ≡ some p)
    × (((p.state ≡ not_ready) × (after_stop ≡ after_run))
        ⊎ ((p.state ≡ ready) × Stopped machine cabin keys (codes "a") p after_run after_stop))
    × (stop_pod_sandbox machine cabin keys (codes "a") after_stop ≡ (ok tt, after_stop))
stop_pod_sandbox-Stopped_example =
    stop_pod_sandbox-Stopped machine cabin keys cabin-SandboxLaws (codes "a") after_run after_stop
      stops

-- Pod "a" is run and stopped, and a pod in between cannot be run.
abbrev after_calls : Host Machine Cabin Keys
after_calls = (stop_pod_sandbox machine cabin keys (codes "a") (run (codes "bad") (after_run)).1).1
