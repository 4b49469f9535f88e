-- ===== src/Runtime/Wired.antt =====
-- runtime.go: while kubelet runs, stops and removes pods, a pod that is ready keeps its network.
use mathlib.Core.Path.{subst}
use virtlet.Prelude.{
  Str, Bool, Bool-cases, true, false, Option, none, some, str_eq, str_eq→eq, str_eq_refl, ◌≡◌, ◌≢◌,
  ◌⊎◌, inl, inr, sym, ap, ◌∙◌,
}
use virtlet.Result.{Result, ok, known, succeeded-cases}
use virtlet.Prog.{attempt}
use virtlet.Prog.Laws.{attempt-parts}
use virtlet.Prog.After.{>>=-after, attempt-after}
use virtlet.Prog.Failing.{unless_err-after}
use virtlet.Types.{ContainerSideNetwork}
use virtlet.World.{World}
use virtlet.MetaStore.{MetaStore, SandboxLaws, pod_record}
use virtlet.Runtime.Messages.{CriPodConfig, PodSandboxMetadata}
use virtlet.Runtime.Host.{Host, PodNetworkDesc, Services, on_store}
use virtlet.Runtime.Parts.{retrieved-parts}
use virtlet.Runtime.Pods.{
  is_ready, network_desc, release_quietly, run_known, run_pod_sandbox, run_valid, run_validated,
  set_up_pod,
}
use virtlet.Runtime.Undone.{added, set_up_pod-failed, release_quietly_lem}
use virtlet.Runtime.Running.{Started, set_up_pod-Started}

-- What the descriptor manager does with the keys that it holds.
pub record FdLaws {St : Type 0} (v : Services St) (Holds : Str → v.E → Type 0) : Type 0 where
  pub add_holds :
      (k : Str) (d : PodNetworkDesc) (e e' : v.E) (bytes : Str)
      → v.add_fds k d e ≡ (ok bytes, e')
      → Holds k e'
  -- AddFDs gives up no key, whatever it returns
  pub add_keeps :
      (k j : Str) (d : PodNetworkDesc) (e : v.E) → Holds j e → Holds j (v.add_fds k d e).1
  -- ReleaseFDs gives up no other key, whatever it returns
  pub release_keeps : (k j : Str) (e : v.E) → k ≢ j → Holds j e → Holds j (v.release_fds k e).1

pub same_str : (a b : Str) → (a ≡ b) ⊎ (a ≢ b)
same_str a b = elim (Bool-cases (str_eq a b)) [
  | inl same ↦ inl (str_eq→eq a b same)
  | inr apart ↦ inr λ e. let k : true ≡ false = sym (str_eq_refl a) ∙ ap (str_eq a) e ∙ apart in cc
]

module _ (x : World) (m : MetaStore) (v : Services m.St) where
  open x use {W}
  open m use {St}
  open v use {E}

  module _ (parse : Str → Result (Option ContainerSideNetwork)) where
    module _ (laws : SandboxLaws m) (Holds : Str → E → Type 0) (fd_laws : FdLaws v Holds) where
      -- The descriptors of every pod that is stored as ready are held.
      unfoldable pub IsWired : Host W St E → Type 0
      IsWired h = (id : Str) → is_ready (pod_record m id h.sys.meta) ≡ true → Holds id h.services

      -- A pod that is not ready needs no descriptors.
      pub released-IsWired :
          (id : Str) (h : Host W St E)
          → is_ready (pod_record m id h.sys.meta) ≡ false
          → IsWired h
          → IsWired (record h { services = (v.release_fds id h.services).1 })
      unfolding IsWired
      released-IsWired id h idle wired j up = elim (same_str id j) [
        | inl same ↦
            let clash : true ≡ false =
              sym up ∙ ap (λ k. is_ready (pod_record m k h.sys.meta)) (sym same) ∙ idle in
            absurd (cc)
        | inr apart ↦ fd_laws.release_keeps id j h.services apart (wired j up)
      ]

      added-IsWired :
          (config : CriPodConfig) (meta : PodSandboxMetadata) (h : Host W St E)
          → IsWired h
          → IsWired (record h { services = added x m laws v parse config meta h })
      unfolding IsWired
      added-IsWired config meta h wired j up =
          fd_laws.add_keeps meta.uid j (network_desc config meta) h.services (wired j up)

      set_up_pod-IsWired :
          (config : CriPodConfig) (meta : PodSandboxMetadata) (h h' : Host W St E)
          → Started x m v parse config meta h h'
          → IsWired h
          → IsWired h'
      unfolding IsWired
      set_up_pod-IsWired config meta h h' s wired j up = elim (same_str meta.uid j) [
        | inl same ↦
            subst (λ k. Holds k h'.services) same
              (fd_laws.add_holds meta.uid (network_desc config meta) h.services h'.services s.bytes
                s.added)
        | inr apart ↦
            let before : is_ready (pod_record m j h.sys.meta) ≡ true =
              ap is_ready (sym (s.others j apart)) ∙ up in
            subst (λ (p : Result Str × E). Holds j p.1) s.added
              (fd_laws.add_keeps meta.uid j (network_desc config meta) h.services (wired j before))
      ]

      run_known-IsWired :
          (config : CriPodConfig) (meta : PodSandboxMetadata) (h : Host W St E) (b : Bool)
          → is_ready (pod_record m meta.uid h.sys.meta) ≡ b
          → IsWired h
          → IsWired (run_known x m v parse b config meta h).1
      unfolding run_known
      run_known-IsWired config meta h true up wired = wired
      run_known-IsWired config meta h false fresh wired =
          let failed = set_up_pod-failed x m laws v parse config meta h in
          let after = record h { services = added x m laws v parse config meta h } in
          let kept = added-IsWired config meta h wired in
          unless_err-after IsWired (release_quietly x m v parse meta.uid)
            (set_up_pod x m v parse config meta) h
            (elim (succeeded-cases (set_up_pod x m v parse config meta h).0) [
              | inl (u, done) ↦
                  set_up_pod-IsWired config meta h (set_up_pod x m v parse config meta h).1
                    (set_up_pod-Started x m v parse laws config meta h _
                      (λ i. (done i, (set_up_pod x m v parse config meta h).1)))
                    wired
              | inr f ↦ subst IsWired (sym (failed f)) kept
            ])
            λ f.
              subst IsWired
                (sym (
                  ap (λ t. (release_quietly x m v parse meta.uid t).1) (failed f)
                  ∙ release_quietly_lem x m laws v parse meta.uid after))
                (released-IsWired meta.uid after fresh kept)

      -- A look at a pod's record.
      pub looked-IsWired :
          (id : Str) (h : Host W St E) → IsWired h → IsWired (on_store (m.retrieve_sandbox id) h).1
      unfolding on_store
      looked-IsWired id h wired =
          subst (λ (s : St). IsWired (record h { sys = record h.sys { meta = s } }))
            (sym (laws.pure_retrieve_sandbox id h.sys.meta)) wired

      pub run_pod_sandbox-IsWired :
          (c : Option CriPodConfig) (h : Host W St E)
          → IsWired h
          → IsWired (run_pod_sandbox x m v parse c h).1
      unfolding run_pod_sandbox run_valid
      run_pod_sandbox-IsWired none h wired = wired
      run_pod_sandbox-IsWired (some config) h wired = of_metadata config.metadata
        where
          of_metadata :
              (o : Option PodSandboxMetadata) → IsWired (run_validated x m v parse config o h).1
          of_metadata none = wired
          of_metadata (some meta) =
              >>=-after IsWired _ (attempt (on_store (m.retrieve_sandbox meta.uid))) h
                (attempt-after IsWired _ h (looked-IsWired meta.uid h wired))
                λ found e.
                  let (same, known_is) =
                    retrieved-parts m laws meta.uid h
                      (attempt-parts (on_store (m.retrieve_sandbox meta.uid)) h e) in
                  let now = (attempt (on_store (m.retrieve_sandbox meta.uid)) h).1 in
                  let up : is_ready (pod_record m meta.uid now.sys.meta) ≡ is_ready (known found) =
                    ap (λ (t : Host W St E). is_ready (pod_record m meta.uid t.sys.meta)) (sym same)
                    ∙ ap is_ready (sym known_is) in
                  let kept =
                    run_known-IsWired config meta now (is_ready (known found)) up
                      (subst IsWired same wired) in
                  >>=-after IsWired _ (run_known x m v parse (is_ready (known found)) config meta)
                    now kept λ u done. kept
