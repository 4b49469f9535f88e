-- ===== src/Runtime/Containers.antt =====
-- runtime.go: the operations on containers, the statistics, and Attach.
use virtlet.Prelude.{
  ℕ, Str, Bool, true, false, not, ◌&&◌, ◌*◌, Option, none, some, List, [], ◌∷◌, map, if◌then◌else◌,
}
use virtlet.Result.{Result, ok, err, fault, panic, errorf, known}
use virtlet.Prog.{pure, raise, lift, get_state, attempt, annotate, ◌>>=◌, ◌>>◌}
use virtlet.Types.{ContainerInfo, ContainerSideNetwork, PodSandboxInfo}
use virtlet.World.{World}
use virtlet.MetaStore.{MetaStore}
use virtlet.Tool.Settings.{VirtualizationConfig}
use virtlet.Tool.Lifecycle
use virtlet.Tool.Lifecycle.{is_running, update_container_network}
use virtlet.Tool.Create
use virtlet.Tool.Query
use virtlet.Tool.Query.{container_info, vm_stats, list_vm_stats}
use virtlet.Tool.Cpusets.{
  update_cpusets_for_emulator_process, update_cpusets_in_container_definition,
}
use virtlet.Runtime.Messages.{
  AttachRequest, ContainerMetadata, CreateContainerRequest, CriContainer, CriContainerConfig,
  CriContainerFilter, CriContainerStatus, CriStats, CriStatsFilter,
}
use virtlet.Runtime.Convert.{
  container_info_to_cri, container_info_to_cri_status, cri_container_filter_to_filter,
  cri_stats_filter_to_filter, get_vm_config, vm_stats_to_cri,
}
use virtlet.Runtime.Host.{Services, on_services, on_store, on_sys}
use virtlet.Runtime.Pods.{R}

-- config.GetMetadata().Name, where GetMetadata gives nil for a nil config too
abbrev pub name_of_metadata : Option ContainerMetadata → Result Str
name_of_metadata none = fault panic
name_of_metadata (some m) = ok m.name

abbrev pub name_of : Option CriContainerConfig → Result Str
name_of none = fault panic
name_of (some c) = name_of_metadata c.metadata

-- The pod's ID, if its network was described.
unfoldable pub fd_key_of : Option ContainerSideNetwork → Str → Str
fd_key_of none id = []
fd_key_of (some csn) id = elim csn.result [ none ↦ [] | some r ↦ id ]

-- The containers of the pod, or none where they cannot be listed.
abbrev pub listed : Result (List Str) → List Str
listed (ok ids) = ids
listed (err e) = []
listed (fault f) = []

abbrev pub runs : Option ContainerInfo → Bool
runs none = false
runs (some c) = is_running c.state

-- A nil info is a nil pointer.
abbrev pub or_panic : {A : Type 0} → Option A → Result A
or_panic none = fault panic
or_panic (some a) = ok a

-- A request for nothing is one for the output.
unfoldable pub attach_request : AttachRequest → AttachRequest
attach_request r = if not r.stdout && not r.stderr then record r { stdout = true } else r

module _ (x : World) (m : MetaStore) (v : Services m.St) (vc : VirtualizationConfig) where
  open m use {St, retrieve_sandbox, list_pod_containers}

  -- For a pod with a container the first one is kept, with the pod's network.
  unfoldable pub create_in :
      CreateContainerRequest → Option ContainerSideNetwork → List Str → R x m v Str
  unfolding fd_key_of
  create_in r csn (id ∷ ids) = do on_sys (update_container_network x m id csn); pure id
  create_in r csn [] = do
    config ← lift (get_vm_config r csn)
    on_sys (Create.create_container x m vc config (fd_key_of csn r.pod_sandbox_id))

  abbrev pub network_of : Option PodSandboxInfo → R x m v (Option ContainerSideNetwork)
  network_of none = raise (errorf "sandbox not in Virtlet metadata store")
  network_of (some p) = pure p.container_side_network

  unfoldable pub create_container : CreateContainerRequest → R x m v Str
  unfolding create_in
  create_container r = do
    _ ← lift (name_of r.config)
    info ← on_store (retrieve_sandbox r.pod_sandbox_id)
    csn ← network_of info
    ids ← attempt (on_store (list_pod_containers r.pod_sandbox_id))
    create_in r csn (listed ids)

  -- A container that runs already is left alone.
  unfoldable pub start_container : Str → R x m v (Unit {0})
  start_container id = do
    info ← attempt (on_sys (container_info x m id))
    if runs (known info) then pure tt else on_sys (Lifecycle.start_container x m id)

  -- The timeout is in seconds.
  unfoldable pub stop_container : Str → ℕ → R x m v (Unit {0})
  stop_container id timeout = on_sys (Lifecycle.stop_container x m id (timeout * 1_000_000_000))

  unfoldable pub remove_container : Str → R x m v (Unit {0})
  remove_container id = do
    on_sys (Lifecycle.remove_container x m id)
    h ← get_state
    annotate "GC error" (on_services (v.gc h.sys.meta))

  unfoldable pub list_containers : Option CriContainerFilter → R x m v (List CriContainer)
  list_containers filter = do
    cs ← on_sys (Query.list_containers x m (cri_container_filter_to_filter filter))
    pure (map container_info_to_cri cs)

  unfoldable pub container_status : Str → R x m v CriContainerStatus
  container_status id = do
    info ← on_sys (container_info x m id)
    c ← lift (or_panic info)
    pure (container_info_to_cri_status c)

  unfoldable pub attach : AttachRequest → R x m v Str
  unfolding attach_request
  attach r = on_services (v.get_attach (attach_request r))

  -- The domain's definition is changed where there is no emulator.
  unfoldable pub update_container_resources : Str → Option Str → R x m v (Unit {0})
  update_container_resources id linux = do
    cpusets ← lift (or_panic linux)
    done ← on_sys (update_cpusets_for_emulator_process x m id cpusets)
    if done then pure tt else on_sys (update_cpusets_in_container_definition x m id cpusets)

  unfoldable pub container_stats : Str → R x m v CriStats
  container_stats id = do
    info ← on_sys (container_info x m id)
    c ← lift (or_panic info)
    vs ← on_sys (vm_stats x m c.id c.name)
    mountpoint ← on_services v.mountpoint
    pure (vm_stats_to_cri vs mountpoint)

  unfoldable pub list_container_stats : Option CriStatsFilter → R x m v (List CriStats)
  list_container_stats filter = do
    stats ← on_sys (list_vm_stats x m (cri_stats_filter_to_filter filter))
    mountpoint ← on_services v.mountpoint
    pure (map (λ vs. vm_stats_to_cri vs mountpoint) stats)
