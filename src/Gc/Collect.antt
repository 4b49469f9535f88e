-- ===== src/Gc/Collect.antt =====
-- gc.go: the collectors. Each goes through everything that it finds and gathers the errors.
use virtlet.Prelude.{
  String, Str, codes, str_eq, has_prefix, Bool, true, false, not, ◌&&◌, Option, none, some, List,
  [], ◌∷◌, ◌++◌, drop, length, if◌then◌else◌,
}
use virtlet.Result.{Error, Result, ok, err, fault, panic, wrap}
use virtlet.Prog.{Prog, pure, crash, lift, get_state, attempt, ◌>>=◌}
use virtlet.Types.{PodSandboxInfo, not_ready}
use virtlet.World.{World}
use virtlet.MetaStore.{MetaStore, Updater}
use virtlet.Tool.State.{on_world, on_meta}
use virtlet.Tool.Lifecycle.{P}
use virtlet.Gc.Names.{
  virtlet_prefix, root_prefix, logical_device_prefix, config_prefix, iso_suffix, has_suffix, base,
  in_list, is_domain_of, is_root_volume_of, is_qcow2_volume_of, is_config_image_of,
}

abbrev pub mark_not_ready : Updater PodSandboxInfo
mark_not_ready none = ok none
mark_not_ready (some s) = ok (some (record s { state = not_ready }))

-- The error that a step of a loop adds to allErrors.
unfoldable pub error_of : {A : Type 0} → String → Result A → List Error
error_of text (ok a) = []
error_of text (err e) = wrap text e ∷ []
error_of text (fault x) = []

-- sinfo.ContainerSideNetwork.NsPath; both pointers are read with no test for nil.
unfoldable pub ns_path_of : Option PodSandboxInfo → Result Str
ns_path_of none = fault panic
ns_path_of (some s) = elim s.container_side_network [ none ↦ fault panic | some n ↦ ok n.ns_path ]

module _ (x : World) where
  open x use {W, Domain, PoolVolume}

  -- domain.Name(); after an error the loop goes on with the empty name.
  abbrev name_or_empty : Result Str → Str
  name_or_empty (ok n) = n
  name_or_empty (err e) = []
  name_or_empty (fault f) = []

  -- A domain of no container is looked up by its name, destroyed and undefined; the error of
  -- Destroy is ignored.
  remove_domain_by_name : Str → Prog W (List Error)
  unfolding error_of
  remove_domain_by_name name = do
    found ← attempt (x.lookup_domain_by_name name)
    elim found [
      | err e ↦ pure (wrap "cannot lookup domain by name" e ∷ [])
      | fault f ↦ crash f
      | ok d ↦ (do
        _ ← attempt (x.destroy d)
        undefined ← attempt (x.undefine d)
        pure (error_of "cannot undefine domain" undefined))
    ]

  unfoldable pub orphan_domain : List Str → Domain → Prog W (List Error)
  unfolding remove_domain_by_name
  orphan_domain ids domain = do
    named ← attempt (x.name domain)
    kept ← lift (in_list ids (is_domain_of (name_or_empty named)))
    removed ← if kept then pure [] else remove_domain_by_name (name_or_empty named)
    pure (error_of "cannot retrieve domain name" named ++ removed)

  -- The loop of each collector.
  unfoldable pub collect : {A : Type 0} → (A → Prog W (List Error)) → List A → Prog W (List Error)
  collect step [] = pure []
  collect step (a ∷ rest) = do first ← step a; later ← collect step rest; pure (first ++ later)

  -- A collector over what `list` finds; where the listing fails, its error, as `describe` words it, is the only
  -- one.
  unfoldable pub collect_all :
      {A : Type 0}
      → (Error → Error)
      → Prog W (List A)
      → (A → Prog W (List Error))
      → Prog W (List Error)
  unfolding collect
  collect_all describe list step = do
    found ← attempt list
    elim found [ ok l ↦ collect step l | err e ↦ pure (describe e ∷ []) | fault f ↦ crash f ]

  unfoldable pub remove_orphan_domains : List Str → Prog W (List Error)
  unfolding orphan_domain collect_all
  remove_orphan_domains ids =
      collect_all (wrap "cannot list domains") x.list_domains (orphan_domain ids)

  -- One volume of the pool: it goes if its name has the collector's prefix and no container's ID.
  unfoldable pub orphan_volume :
      Str → (Str → Str → Result Bool) → List Str → PoolVolume → Prog W (List Error)
  unfolding error_of
  orphan_volume prefix belongs ids volume = do
    path ← attempt (x.path volume)
    elim path [
      | err e ↦ pure (wrap "cannot retrieve volume path" e ∷ [])
      | fault f ↦ crash f
      | ok p ↦
          if has_prefix (base p) prefix
          then (do
            kept ← lift (in_list ids (belongs (base p)))
            if kept then pure [] else (do
              removed ← attempt (x.remove volume)
              pure (error_of "cannot remove volume with path" removed)))
          else pure []
    ]

  -- A collector over the volumes of the storage pool, where there is a pool.
  unfoldable pub collect_volumes :
      (Error → Error) → (PoolVolume → Prog W (List Error)) → Prog W (List Error)
  unfolding collect_all
  collect_volumes describe step = do
    pool ← attempt x.storage_pool
    elim pool [
      | ok _ ↦ collect_all describe x.list_volumes step
      | err e ↦ pure (wrap "cannot get the storage pool" e ∷ [])
      | fault f ↦ crash f
    ]

  unfoldable pub remove_orphan_root_volumes : List Str → Prog W (List Error)
  unfolding orphan_volume collect_volumes
  remove_orphan_root_volumes ids =
      collect_volumes (wrap "cannot list libvirt volumes")
        (orphan_volume root_prefix is_root_volume_of ids)

  unfoldable pub remove_orphan_qcow2_volumes : List Str → Prog W (List Error)
  unfolding orphan_volume collect_volumes
  remove_orphan_qcow2_volumes ids =
      collect_volumes (wrap "cannot list domains")
        (orphan_volume virtlet_prefix is_qcow2_volume_of ids)

  unfoldable pub orphan_config_image : List Str → Str → Prog W (List Error)
  unfolding error_of
  orphan_config_image ids path =
      if has_prefix (base path) config_prefix && has_suffix (base path) iso_suffix
      then (do
        kept ← lift (in_list ids (is_config_image_of (base path)))
        if kept then pure [] else (do
          removed ← attempt (x.remove_file path)
          pure (error_of "cannot remove volume with path" removed)))
      else pure []

  unfoldable pub remove_orphan_config_images : List Str → Str → Prog W (List Error)
  unfolding orphan_config_image collect_all
  remove_orphan_config_images ids directory =
      collect_all (wrap "error while globbing files in directory")
        (x.glob (directory ++ codes "/config-*.iso")) (orphan_config_image ids)

  -- idsInUse[id]
  unfoldable pub in_use : List Str → Str → Bool
  in_use [] id = false
  in_use (j ∷ ids) id = let rest = in_use ids id in if str_eq j id then true else rest

  unfoldable pub orphan_block_device : List Str → Str → Prog W (List Error)
  unfolding error_of
  orphan_block_device ids dm_name =
      if not (has_prefix dm_name logical_device_prefix)
      then crash panic
      else if in_use ids (drop (length logical_device_prefix) dm_name)
      then pure []
      else (do unmapped ← attempt (x.unmap dm_name); pure (error_of "error unmapping" unmapped))

  unfoldable pub remove_orphan_virtual_block_devices : List Str → Prog W (List Error)
  unfolding orphan_block_device collect_all
  remove_orphan_virtual_block_devices ids =
      collect_all (λ e. e) x.list_virtlet_logical_devices (orphan_block_device ids)

  abbrev pub config_iso_dir : Str
  config_iso_dir = codes "/var/lib/virtlet/config"

  -- The five collectors, one after another.
  unfoldable pub collect_orphans : List Str → Prog W (List Error)
  collect_orphans ids = do
    domains ← remove_orphan_domains ids
    roots ← remove_orphan_root_volumes ids
    volumes ← remove_orphan_qcow2_volumes ids
    images ← remove_orphan_config_images ids config_iso_dir
    devices ← remove_orphan_virtual_block_devices ids
    pure (domains ++ roots ++ volumes ++ images ++ devices)

module _ (x : World) (m : MetaStore) where
  open x use {W}
  open m use {St}

  -- A sandbox whose network namespace is gone is marked as not ready.
  unfoldable pub check_sandbox_net_ns : Str → P x m (Unit {0})
  check_sandbox_net_ns sandbox = do
    sinfo ← on_meta (m.retrieve_sandbox sandbox)
    path ← lift (ns_path_of sinfo)
    s ← get_state
    if x.is_path_an_ns path s.world
        then pure tt
        else on_meta (m.save_sandbox sandbox mark_not_ready)

  -- One round of the loop over the sandboxes: the IDs and the errors that it adds.
  sandbox_ids : Str → P x m (List Str × List Error)
  sandbox_ids sandbox = do
    checked ← attempt (check_sandbox_net_ns sandbox)
    elim checked [
      | err e ↦ pure ([], e ∷ [])
      | fault f ↦ crash f
      | ok u ↦ (do
        containers ← attempt (on_meta (m.list_pod_containers sandbox))
        elim containers [
          | ok ids ↦ pure (ids, [])
          | err e ↦ pure ([], wrap "cannot list containers for pod" e ∷ [])
          | fault f ↦ crash f
        ])
    ]

  each_sandbox : List Str → P x m (List Str × List Error)
  each_sandbox [] = pure ([], [])
  each_sandbox (sandbox ∷ sandboxes) = do
    first ← sandbox_ids sandbox
    rest ← each_sandbox sandboxes
    pure (first.0 ++ rest.0, first.1 ++ rest.1)

  -- `fatal` where the sandboxes cannot be listed.
  unfoldable pub retrieve_list_of_container_ids : P x m (List Str × Bool × List Error)
  unfolding each_sandbox sandbox_ids
  retrieve_list_of_container_ids = do
    sandboxes ← attempt (on_meta (m.list_pod_sandboxes none))
    elim sandboxes [
      | err e ↦ pure ([], true, wrap "cannot list pod sandboxes" e ∷ [])
      | fault f ↦ crash f
      | ok l ↦ (do found ← each_sandbox l; pure (found.0, false, found.1))
    ]

  unfoldable pub garbage_collect : P x m (List Error)
  garbage_collect = do
    found ← retrieve_list_of_container_ids
    if found.1
        then pure found.2
        else (do errors ← on_world (collect_orphans x found.0); pure (found.2 ++ errors))
