-- ===== src/Tool/Query.antt =====
-- virtualization.go: what the tool reports about containers, and the statistics.
use virtlet.Prelude.{
  Str, codes, str_eq, has_prefix, Bool, true, false, not, ◌&&◌, ◌||◌, Option, none, some, List, [],
  ◌∷◌, if◌then◌else◌,
}
use virtlet.Result.{ok, err, fault, errorf}
use virtlet.Prog.{pure, raise, crash, get_state, attempt, ◌>>=◌, ◌>>◌}
use virtlet.Types.{
  ContainerInfo, ContainerState, created, running, exited, unknown, ContainerFilter, VmStats,
  VmStatsFilter, StrMap,
}
use virtlet.Types.Domain.{DomainState, DiskDef}
use virtlet.World.{World}
use virtlet.MetaStore.{MetaStore}
use virtlet.Tool.State.{on_world, on_meta}
use virtlet.Tool.Lifecycle.{P, set_state, is_created}

-- A paused or shut off domain that was never started is still just created.
unfoldable pub virt_to_kube_state : DomainState → ContainerState → ContainerState
virt_to_kube_state DomainState.shutdown last = running
virt_to_kube_state DomainState.running last = running
virt_to_kube_state DomainState.paused last = if is_created last then created else exited
virt_to_kube_state DomainState.shutoff last = if is_created last then created else exited
virt_to_kube_state DomainState.crashed last = exited
virt_to_kube_state DomainState.pm_suspended last = exited
virt_to_kube_state _ last = unknown

unfoldable pub same_state : ContainerState → ContainerState → Bool
same_state created created = true
same_state running running = true
same_state exited exited = true
same_state unknown unknown = true
same_state _ _ = false

-- filter != nil && filter.Id != ""
abbrev pub id_of : Option ContainerFilter → Str
id_of none = []
id_of (some f) = f.id

abbrev pub pod_of : Option ContainerFilter → Str
pod_of none = []
pod_of (some f) = f.pod_sandbox_id

-- The label of a map, if it is set.
unfoldable pub state_matches : Option ContainerState → ContainerState → Bool
state_matches none st = true
state_matches (some wanted) st = same_state st wanted

-- strings.Contains
unfoldable pub contains : Str → Str → Bool
contains [] p = has_prefix [] p
contains (c ∷ s) p = has_prefix (c ∷ s) p || contains s p

-- The loop of VMStats: the last disk whose file name has the mark.
unfoldable pub root_disk : List DiskDef → Str → Str
unfolding contains
root_disk [] found = found
root_disk (d ∷ ds) found = root_disk ds (elim d.file [
  | none ↦ found
  | some fname ↦ if contains fname (codes "virtlet_root_") then fname else found
])

abbrev pub of_info : Option ContainerInfo → List ContainerInfo
of_info none = []
of_info (some c) = c ∷ []

module _ (x : World) (m : MetaStore) where
  open x use {W, Domain, lookup_domain_by_uuid_string, selector_matches}
  open m use {St, retrieve, save}

  unfoldable pub labels_match : Option StrMap → StrMap → Bool
  labels_match none labels = true
  labels_match (some selector) labels = selector_matches selector labels

  unfoldable pub filter_container : ContainerInfo → ContainerFilter → Bool
  unfolding state_matches labels_match same_state
  filter_container c f =
      if not (str_eq f.id []) && not (str_eq c.id f.id)
      then false
      else if not (str_eq f.pod_sandbox_id [])
          && not (str_eq c.config.pod_sandbox_id f.pod_sandbox_id)
      then false
      else if not (state_matches f.state c.state)
      then false
      else labels_match f.label_selector c.config.container_labels

  -- The part of ContainerInfo for a container that the metadata store knows.
  unfoldable pub refresh : Str → Domain → ContainerInfo → P x m (Option ContainerInfo)
  unfolding virt_to_kube_state same_state
  refresh id domain info = do
    st ← on_world (x.state domain)
    let now = virt_to_kube_state st info.state
    if same_state info.state now
        then pure (some info)
        else do on_meta (save id (set_state now)); pure (some (record info { state = now }))

  -- With no record there is nothing to report.
  abbrev pub refresh_known : Str → Domain → Option ContainerInfo → P x m (Option ContainerInfo)
  refresh_known id domain none = pure none
  refresh_known id domain (some c) = refresh id domain c

  unfoldable pub container_info : Str → P x m (Option ContainerInfo)
  unfolding refresh
  container_info id = do
    domain ← on_world (lookup_domain_by_uuid_string id)
    info ← on_meta (retrieve id)
    refresh_known id domain info

  -- The body of getPodContainer's loop, which returns in its first round.
  unfoldable pub pod_container_info : Str → P x m (Option ContainerInfo)
  pod_container_info id = do
    found ← attempt (on_world (lookup_domain_by_uuid_string id))
    elim found [
      | err e ↦ pure none
      | fault f ↦ crash f
      | ok d ↦ (do
        info ← on_meta (retrieve id)
        elim info [
          | none ↦
              raise (errorf "container metadata not found, but it's still mentioned in sandbox")
          | some c ↦ pure (some c)
        ])
    ]

  abbrev first_container : List Str → P x m (Option ContainerInfo)
  first_container [] = pure none
  first_container (id ∷ ids) = pod_container_info id

  unfoldable pub get_pod_container : Str → P x m (Option ContainerInfo)
  unfolding pod_container_info
  get_pod_container pod_sandbox_id = do
    ids ← attempt (on_meta (m.list_pod_containers pod_sandbox_id))
    elim ids [ ok l ↦ first_container l | err e ↦ pure none | fault f ↦ crash f ]

  -- The loop over all the domains; one with no metadata is not Virtlet's.
  unfoldable pub list_domain_containers : List Domain → P x m (List ContainerInfo)
  list_domain_containers [] = pure []
  list_domain_containers (d ∷ ds) = do
    id ← on_world (x.uuid_string d)
    info ← container_info id
    rest ← list_domain_containers ds
    elim info [ none ↦ pure rest | some c ↦ pure (c ∷ rest) ]

  unfoldable pub keep_matching : ContainerFilter → List ContainerInfo → List ContainerInfo
  keep_matching f [] = []
  keep_matching f (c ∷ cs) =
      let rest = keep_matching f cs in if filter_container c f then c ∷ rest else rest

  abbrev pub filtered : Option ContainerFilter → List ContainerInfo → List ContainerInfo
  filtered none cs = cs
  filtered (some f) cs = keep_matching f cs

  unfoldable pub list_containers : Option ContainerFilter → P x m (List ContainerInfo)
  unfolding get_pod_container list_domain_containers
  list_containers f =
      if not (str_eq (id_of f) [])
      then (do info ← container_info (id_of f); pure (filtered f (of_info info)))
      else if not (str_eq (pod_of f) [])
      then (do info ← get_pod_container (pod_of f); pure (filtered f (of_info info)))
      else (do
        domains ← on_world x.list_domains
        cs ← list_domain_containers domains
        pure (filtered f cs))

  unfoldable pub vm_stats : Str → Str → P x m VmStats
  unfolding root_disk contains
  vm_stats id name = do
    domain ← on_world (lookup_domain_by_uuid_string id)
    s ← get_state
    rss ← on_world (x.get_rss domain)
    cpu_time ← on_world (x.get_cpu_time domain)
    desc ← on_world (x.xml domain)
    let location = root_disk desc.devices.disks []
    if str_eq location []
        then raise (errorf "cannot locate root disk in domain definition")
        else (do
          size ← on_world (x.bytes_used_by location)
          pure (record {
            container_id = id;
            name = name;
            timestamp = x.now s.world;
            cpu_usage = cpu_time;
            memory_usage = rss;
            fs_bytes = size;
          }))

  unfoldable pub stats_of_each : List ContainerInfo → P x m (List VmStats)
  stats_of_each [] = pure []
  stats_of_each (c ∷ cs) = do
    stats ← vm_stats c.id c.name
    rest ← stats_of_each cs
    pure (stats ∷ rest)

  unfoldable pub containers_filter : Option VmStatsFilter → Option ContainerFilter
  containers_filter none = none
  containers_filter (some f) = some (record {
    id = f.id;
    state = none;
    pod_sandbox_id = f.pod_sandbox_id;
    label_selector = f.label_selector;
  })

  unfoldable pub list_vm_stats : Option VmStatsFilter → P x m (List VmStats)
  unfolding stats_of_each containers_filter
  list_vm_stats f = do infos ← list_containers (containers_filter f); stats_of_each infos
