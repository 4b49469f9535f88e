-- ===== src/Runtime/Pods.antt =====
-- runtime.go: the operations on pod sandboxes, with NewPodSandboxInfo and GetPodIP.
use virtlet.Prelude.{
  ℕ, Str, codes, str_eq, Bool, true, false, Option, none, some, List, [], ◌∷◌, if◌then◌else◌,
}
use virtlet.Result.{Result, ok, err, fault, errorf, known}
use virtlet.Prog.{Prog, pure, raise, lift, get_state, attempt, annotate, unless_err, ◌>>=◌, ◌>>◌}
use virtlet.Types.{
  CniIp, CniResult, ContainerSideNetwork, PodSandboxConfig, PodSandboxInfo, PodSandboxState, ready,
  not_ready,
}
use virtlet.World.{World}
use virtlet.MetaStore.{MetaStore, Updater}
use virtlet.Runtime.Messages.{CriPod, CriPodConfig, CriPodFilter, CriPodStatus, PodSandboxMetadata}
use virtlet.Runtime.Convert.{
  cri_pod_config_to_config, cri_pod_filter_to_filter, pod_sandbox_info_to_cri,
}
use virtlet.Runtime.Host.{Host, PodNetworkDesc, Services, on_services, on_store}

-- The part of NewPodSandboxInfo for the bytes that AddFDs gave, where `parse` is json.Unmarshal.
unfoldable pub side_network :
    (Str → Result (Option ContainerSideNetwork)) → Str → Result (Option ContainerSideNetwork)
side_network parse [] = ok none
side_network parse (c ∷ cs) = parse (c ∷ cs)

-- The pod's ID is set by Retrieve.
unfoldable pub new_pod_sandbox_info :
    (Str → Result (Option ContainerSideNetwork))
    → PodSandboxConfig
    → Str
    → PodSandboxState
    → ℕ
    → Result PodSandboxInfo
unfolding side_network
new_pod_sandbox_info parse config bytes st now = elim (side_network parse bytes) [
  | err e ↦ err e
  | fault f ↦ fault f
  | ok csn ↦ ok (record {
    pod_id = [];
    config = config;
    created_at = now;
    state = st;
    container_side_network = csn;
  })
]

unfoldable pub network_desc : CriPodConfig → PodSandboxMetadata → PodNetworkDesc
network_desc c m = record {
  pod_id = m.uid;
  pod_ns = m.namespace;
  pod_name = m.name;
  dns = c.dns_config;
}

abbrev pub is_ready : Option PodSandboxInfo → Bool
is_ready none = false
is_ready (some p) = elim p.state [ ready ↦ true | not_ready ↦ false ]

-- The handlers that the service gives to Save.
abbrev pub replace_by : PodSandboxInfo → Updater PodSandboxInfo
replace_by psi c = ok (some psi)

abbrev pub stop_pod : Updater PodSandboxInfo
stop_pod none = ok none
stop_pod (some c) = ok (some (record c { state = not_ready }))

abbrev pub remove_pod : Updater PodSandboxInfo
remove_pod c = ok none

-- cni.GetPodIP
unfoldable pub first_ipv4 : List CniIp → Str
first_ipv4 [] = []
first_ipv4 (ip ∷ ips) =
    let rest = first_ipv4 ips in if str_eq ip.version (codes "4") then ip.address else rest

unfoldable pub get_pod_ip : Option CniResult → Str
get_pod_ip none = []
get_pod_ip (some r) = first_ipv4 r.ips

cni_result_of : Option ContainerSideNetwork → Option CniResult
cni_result_of none = none
cni_result_of (some csn) = csn.result

unfoldable pub status_of : PodSandboxInfo → CriPodStatus
unfolding cni_result_of
status_of p =
    let ip = get_pod_ip (cni_result_of p.container_side_network) in
    record { pod = pod_sandbox_info_to_cri p; network = if str_eq ip [] then none else some ip }

-- The entry of a pod whose record could be read.
abbrev pub of_known : Option PodSandboxInfo → List CriPod → List CriPod
of_known none pods = pods
of_known (some p) pods = pod_sandbox_info_to_cri p ∷ pods

abbrev or_partial :
    Option PodSandboxInfo → Result (Option PodSandboxInfo) → Result (Option PodSandboxInfo)
or_partial part (ok found) = ok found
or_partial part (err e) = ok part
or_partial part (fault f) = fault f

module _ (x : World) (m : MetaStore) (v : Services m.St) where
  open x use {W}
  open m use {St, retrieve_sandbox, save_sandbox}
  open v use {E}

  abbrev pub R : Type 0 → Type 0
  R A = Prog (Host W St E) A

  module _ (parse : Str → Result (Option ContainerSideNetwork)) where
    -- From AddFDs to Save, the part whose error is cleaned up after.
    unfoldable pub set_up_pod : CriPodConfig → PodSandboxMetadata → R (Unit {0})
    unfolding new_pod_sandbox_info
    set_up_pod config meta = do
      bytes ←
          annotate "Error adding pod to CNI network"
            (on_services (v.add_fds meta.uid (network_desc config meta)))
      h ← get_state
      psi ← lift (
          new_pod_sandbox_info parse (cri_pod_config_to_config config meta) bytes ready
            (x.now h.sys.world))
      on_store (save_sandbox meta.uid (replace_by psi))

    -- The deferred call, whose error is logged.
    unfoldable pub release_quietly : Str → R (Unit {0})
    release_quietly id = do _ ← attempt (on_services (v.release_fds id)); pure tt

    unfoldable pub run_known : Bool → CriPodConfig → PodSandboxMetadata → R (Unit {0})
    unfolding set_up_pod release_quietly
    run_known true config meta = pure tt
    run_known false config meta = unless_err (set_up_pod config meta) (release_quietly meta.uid)

    -- A pod that is ready already is left as it is.
    unfoldable pub run_valid : CriPodConfig → PodSandboxMetadata → R Str
    unfolding run_known
    run_valid config meta = do
      found ← attempt (on_store (retrieve_sandbox meta.uid))
      run_known (is_ready (known found)) config meta
      pure meta.uid

    -- validatePodSandboxConfig
    abbrev pub run_validated : CriPodConfig → Option PodSandboxMetadata → R Str
    run_validated config none = raise (errorf "sandbox config is missing Metadata attribute")
    run_validated config (some meta) = run_valid config meta

    unfoldable pub run_pod_sandbox : Option CriPodConfig → R Str
    unfolding run_valid
    run_pod_sandbox none = raise (errorf "no pod sandbox config passed to RunPodSandbox")
    run_pod_sandbox (some config) = run_validated config config.metadata

  unfoldable pub stop_known : Str → PodSandboxState → R (Unit {0})
  stop_known id not_ready = pure tt
  stop_known id ready = do
    on_store (save_sandbox id stop_pod)
    _ ← attempt (on_services (v.release_fds id))
    pure tt

  abbrev pub stop_found : Str → Option PodSandboxInfo → R (Unit {0})
  stop_found id none = raise (errorf "sandbox not found in Virtlet metadata store")
  stop_found id (some p) = stop_known id p.state

  unfoldable pub stop_pod_sandbox : Str → R (Unit {0})
  unfolding stop_known
  stop_pod_sandbox id = do info ← on_store (retrieve_sandbox id); stop_found id info

  unfoldable pub remove_pod_sandbox : Str → R (Unit {0})
  remove_pod_sandbox id = on_store (save_sandbox id remove_pod)

  unfoldable pub pod_sandbox_status : Str → R CriPodStatus
  unfolding status_of
  pod_sandbox_status id = do
    info ← on_store (retrieve_sandbox id)
    elim info [
      | none ↦ raise (errorf "sandbox not found in Virtlet metadata store")
      | some p ↦ pure (status_of p)
    ]

  -- The loop. `partial` is what Retrieve returns along with an error: json.Unmarshal may have read
  -- a part of the record, and then this part is listed.
  unfoldable pub list_retrieved : (Str → St → Option PodSandboxInfo) → List Str → R (List CriPod)
  list_retrieved partial [] = pure []
  list_retrieved partial (id ∷ ids) = do
    h ← get_state
    found ← attempt (on_store (retrieve_sandbox id))
    info ← lift (or_partial (partial id h.sys.meta) found)
    rest ← list_retrieved partial ids
    pure (of_known info rest)

  unfoldable pub list_pod_sandbox :
      (Str → St → Option PodSandboxInfo) → Option CriPodFilter → R (List CriPod)
  unfolding list_retrieved
  list_pod_sandbox partial filter = do
    ids ← on_store (m.list_pod_sandboxes (cri_pod_filter_to_filter filter))
    list_retrieved partial ids
