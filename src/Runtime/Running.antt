-- ===== src/Runtime/Running.antt =====
-- runtime.go: what a RunPodSandbox that succeeds has done.
use virtlet.Prelude.{ℕ, Str, [], Option, some, ◌≡◌, ◌≢◌, refl, sym, ap, ◌∙◌}
use virtlet.Result.{Result, ok, err, fault, ok_injective}
use virtlet.Prog.Laws.{annotate-eq-ok, stepping}
use virtlet.Types.{ContainerSideNetwork, PodSandboxInfo, ready}
use virtlet.World.{World}
use virtlet.MetaStore.{MetaStore, SandboxLaws, pod_record, with_pod}
use virtlet.Tool.State.{Sys}
use virtlet.Tool.State.Halves.{get_state-parts, lift-parts}
use virtlet.Runtime.Messages.{CriPodConfig, PodSandboxMetadata}
use virtlet.Runtime.Convert.{cri_pod_config_to_config}
use virtlet.Runtime.Host.{Host, Services}
use virtlet.Runtime.Parts.{on_services-parts, on_store-parts}
use virtlet.Runtime.Pods.{network_desc, new_pod_sandbox_info, replace_by, set_up_pod, side_network}

-- The record that NewPodSandboxInfo makes, under the pod's ID.
abbrev pub started_record :
    CriPodConfig → PodSandboxMetadata → ℕ → Option ContainerSideNetwork → Str → PodSandboxInfo
started_record config meta now csn id = record {
  pod_id = id;
  config = cri_pod_config_to_config config meta;
  created_at = now;
  state = ready;
  container_side_network = csn;
}

module _ (parse : Str → Result (Option ContainerSideNetwork)) where
  made_of :
      (config : CriPodConfig) (meta : PodSandboxMetadata) (bytes : Str) (now : ℕ)
      (psi : PodSandboxInfo) (r : Result (Option ContainerSideNetwork))
      → side_network parse bytes ≡ r
      → new_pod_sandbox_info parse (cri_pod_config_to_config config meta) bytes ready now ≡ ok psi
      → (csn : Option ContainerSideNetwork) × (side_network parse bytes ≡ ok csn)
        × (psi ≡ started_record config meta now csn [])
  unfolding new_pod_sandbox_info
  made_of config meta bytes now psi (ok csn) e h =
      (csn, e, sym (ok_injective (rw (e, new_pod_sandbox_info) at h)))
  made_of config meta bytes now psi (err x) e h =
      let k : err x ≡ ok psi = rw (e, new_pod_sandbox_info) at h in absurd (cc)
  made_of config meta bytes now psi (fault x) e h =
      let k : fault x ≡ ok psi = rw (e, new_pod_sandbox_info) at h in absurd (cc)

module _ (x : World) (m : MetaStore) (v : Services m.St) where
  open x use {W}
  open m use {St}
  open v use {E}

  module _ (parse : Str → Result (Option ContainerSideNetwork)) where
    -- The pod's network was set up, and the pod is stored as ready with the network that AddFDs
    -- has described; the other pods and the world are as before.
    pub record Started (config : CriPodConfig) (meta : PodSandboxMetadata)
        (before after : Host W St E) : Type 0 where
      pub bytes : Str
      pub csn : Option ContainerSideNetwork
      pub added :
          v.add_fds meta.uid (network_desc config meta) before.services ≡ (ok bytes, after.services)
      pub parsed : side_network parse bytes ≡ ok csn
      pub is :
          pod_record m meta.uid after.sys.meta
          ≡ some (started_record config meta (x.now before.sys.world) csn meta.uid)
      pub others :
          (j : Str) → meta.uid ≢ j → pod_record m j after.sys.meta ≡ pod_record m j before.sys.meta
      pub same_world : before.sys.world ≡ after.sys.world

    module _ (laws : SandboxLaws m) where
      pub set_up_pod-Started :
          (config : CriPodConfig) (meta : PodSandboxMetadata) (h h' : Host W St E)
          → set_up_pod x m v parse config meta h ≡ (ok tt, h')
          → Started config meta h h'
      unfolding set_up_pod
      set_up_pod-Started config meta h h' run = stepping _ _ run λ bytes h1 added run1.
          stepping _ _ run1 λ s h2 read run2. stepping _ _ run2 λ psi h3 made saved.
            let (added', sys1) = on_services-parts _ h (annotate-eq-ok _ _ h added) in
            let (now, same2) = get_state-parts h1 read in
            let (made', same3) = lift-parts _ h2 made in
            let (saved', world4, services4) = on_store-parts _ h3 saved in
            let metas : h3.sys.meta ≡ h.sys.meta =
              sym (ap (λ (t : Host W St E). t.sys.meta) (same2 ∙ same3))
              ∙ sym (ap (λ (s : Sys W St). s.meta) sys1) in
            let (csn, parsed, psi_is) =
              made_of parse config meta bytes (x.now s.sys.world) psi _ refl made' in
            let (old, new, had, gave, is) =
              laws.saved_sandbox meta.uid (replace_by psi) h3.sys.meta h'.sys.meta saved' in
            let clock : x.now s.sys.world ≡ x.now h.sys.world = ap x.now (
              sym (ap (λ (t : Host W St E). t.sys.world) now)
              ∙ sym (ap (λ (s : Sys W St). s.world) sys1)) in
            record {
              bytes = bytes;
              csn = csn;
              added = rw (← services4, ← same3, ← same2) added';
              parsed = parsed;
              is =
                  is
                  ∙ ap (with_pod meta.uid) (sym (ok_injective gave))
                  ∙ ap (λ (p : PodSandboxInfo). some (record p { pod_id = meta.uid })) psi_is
                  ∙ ap (λ n. some (started_record config meta n csn meta.uid)) clock;
              others = λ j ne.
                  laws.kept_sandbox meta.uid j (replace_by psi) h3.sys.meta h'.sys.meta saved' ne
                  ∙ ap (pod_record m j) metas;
              same_world =
                  ap (λ (s : Sys W St). s.world) sys1
                  ∙ ap (λ (t : Host W St E). t.sys.world) (same2 ∙ same3)
                  ∙ world4;
            }
