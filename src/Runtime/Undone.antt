-- ===== src/Runtime/Undone.antt =====
-- runtime.go: a RunPodSandbox that fails has undone what it did.
use virtlet.Prelude.{Str, Bool, false, Option, some, ◌≡◌, inl, inr, refl, sym, ap, ◌∙◌, arith}
use virtlet.Result.{Error, Result, ok, err}
use virtlet.Prog.{attempt, annotate, get_state, pure, ◌>>=◌, ◌>>◌}
use virtlet.Prog.Failing.{Failing, >>=-Failing, >>=-eq-err, attempt-eq-err, unless_err-eq-err}
use virtlet.Types.{ContainerSideNetwork}
use virtlet.World.{World}
use virtlet.MetaStore.{MetaStore, SandboxLaws, pod_record}
use virtlet.Runtime.Messages.{CriPodConfig, PodSandboxMetadata}
use virtlet.Runtime.Host.{Host, Services, on_services, on_store}
use virtlet.Runtime.Pods.{
  is_ready, network_desc, release_quietly, replace_by, run_known, run_pod_sandbox, run_valid,
  run_validated, set_up_pod,
}

module _ (x : World) (m : MetaStore) (laws : SandboxLaws m) (v : Services m.St) where
  open x use {W}
  open m use {St}
  open v use {E}

  module _ (parse : Str → Result (Option ContainerSideNetwork)) where
    -- The state after AddFDs.
    abbrev pub added : CriPodConfig → PodSandboxMetadata → Host W St E → E
    added config meta h = (v.add_fds meta.uid (network_desc config meta) h.services).1

    -- The store is as it was: a Save that fails is rolled back.
    pub set_up_pod-failed :
        (config : CriPodConfig) (meta : PodSandboxMetadata) (h : Host W St E)
        → Failing
            (λ t. t ≡ record h { services = added config meta h })
            (set_up_pod x m v parse config meta h)
    unfolding set_up_pod on_services on_store annotate
    set_up_pod-failed config meta h =
        let Same = λ (t : Host W St E). t ≡ record h { services = added config meta h } in
        >>=-Failing Same _ _ h (λ failed. refl)
          λ bytes e.
            >>=-Failing Same _ get_state _ (λ failed. refl)
              λ s e2.
                >>=-Failing Same _ _ _ (λ failed. refl)
                  λ psi e3 failed.
                    ap
                      (λ (t : St). record h {
                        sys = record h.sys { meta = t };
                        services = added config meta h;
                      })
                      (laws.rolled_back_sandbox meta.uid (replace_by psi) h.sys.meta _ _ refl
                        failed)

    pub release_quietly_lem :
        (id : Str) (h : Host W St E)
        → (release_quietly x m v parse id h).1
          ≡ record h { services = (v.release_fds id h.services).1 }
    unfolding release_quietly on_services attempt ◌>>=◌
    release_quietly_lem id h = ground arith

    run_known-Undone :
        (config : CriPodConfig) (meta : PodSandboxMetadata) (h : Host W St E) {e : Error}
        {h' : Host W St E}
        → run_known x m v parse false config meta h ≡ (err e, h')
        → h' ≡ record h { services = (v.release_fds meta.uid (added config meta h)).1 }
    unfolding run_known
    run_known-Undone config meta h run =
        let (failed, is) = unless_err-eq-err _ _ h run in
        sym is
        ∙ release_quietly_lem meta.uid _
        ∙ ap (λ (t : Host W St E). record t { services = (v.release_fds meta.uid t.services).1 })
            (set_up_pod-failed config meta h failed)

    run_valid-Undone :
        (config : CriPodConfig) (meta : PodSandboxMetadata) (h : Host W St E) {e : Error}
        {h' : Host W St E}
        → is_ready (pod_record m meta.uid h.sys.meta) ≡ false
        → run_valid x m v parse config meta h ≡ (err e, h')
        → h' ≡ record h { services = (v.release_fds meta.uid (added config meta h)).1 }
    unfolding run_valid on_store
    run_valid-Undone config meta h {e} fresh run =
        let rest = attempt-eq-err _ (on_store (m.retrieve_sandbox meta.uid)) h run in
        let same =
          ap (λ (t : St). record h { sys = record h.sys { meta = t } })
            (laws.pure_retrieve_sandbox meta.uid h.sys.meta) in
        let from = λ (b : Bool) (t : Host W St E).
          (run_known x m v parse b config meta >> pure meta.uid) t in
        elim (>>=-eq-err _ (run_known x m v parse false config meta) h (
          sym (ap (λ (t : Host W St E). from false t) same)
          ∙ sym (ap (λ (b : Bool). from b (on_store (m.retrieve_sandbox meta.uid) h).1) fresh)
          ∙ rest)) [
            | inl (is, end) ↦ run_known-Undone config meta h (λ i. (is i, end i))
            | inr (u, done, after) ↦ let k : ok meta.uid ≡ err e = λ i. (after i).0 in absurd (cc)
          ]

    -- Where RunPodSandbox of a pod that is not ready returns an error, the metadata store and the
    -- world are as before the call, and the only calls made of the descriptor manager are AddFDs
    -- for the pod and then ReleaseFDs for it, even if it was AddFDs that failed.
    pub run_pod_sandbox-Undone :
        (config : CriPodConfig) (meta : PodSandboxMetadata) (h h' : Host W St E) (e : Error)
        → config.metadata ≡ some meta
        → is_ready (pod_record m meta.uid h.sys.meta) ≡ false
        → run_pod_sandbox x m v parse (some config) h ≡ (err e, h')
        → h' ≡ record h { services = (v.release_fds meta.uid (added config meta h)).1 }
    unfolding run_pod_sandbox
    run_pod_sandbox-Undone config meta h h' e has fresh run =
        run_valid-Undone config meta h fresh
          (sym (ap (λ o. run_validated x m v parse config o h) has) ∙ run)
