-- ===== src/Runtime/Stopping.antt =====
-- runtime.go: what a StopPodSandbox that succeeds has done.
use virtlet.Prelude.{Str, Option, none, some, ◌≡◌, ◌≢◌, ◌⊎◌, inl, inr, refl, sym, ap, ◌∙◌}
use virtlet.Result.{Result, ok, err, errorf, fault, known, ok_injective}
use virtlet.Prog.{attempt, pure, ◌>>=◌}
use virtlet.Prog.Laws.{ok->>=, stepping}
use virtlet.Types.{PodSandboxInfo, PodSandboxState, ready, not_ready}
use virtlet.World.{World}
use virtlet.MetaStore.{MetaStore, SandboxLaws, pod_record, with_pod}
use virtlet.Tool.State.{Sys}
use virtlet.Runtime.Host.{Host, Services, on_services, on_store}
use virtlet.Runtime.Parts.{on_store-parts, retrieved-parts}
use virtlet.Runtime.Pods.{stop_found, stop_known, stop_pod, stop_pod_sandbox}

known-eq-some :
    (r : Result (Option PodSandboxInfo)) (p : PodSandboxInfo) → known r ≡ some p → r ≡ ok (some p)
known-eq-some (ok a) p h = ap ok h
known-eq-some (err e) p h = absurd (cc)
known-eq-some (fault f) p h = absurd (cc)

-- The handler has marked the record, which is stored under the pod's ID.
stopped_record :
    (id : Str) (p : PodSandboxInfo) (old new : Option PodSandboxInfo)
    → some p ≡ with_pod id old
    → stop_pod old ≡ ok new
    → with_pod id new ≡ some (record p { state = not_ready })
stopped_record id p none new had gave = absurd (cc)
stopped_record id p (some q) new had gave =
    ap (with_pod id) (sym (ok_injective gave))
    ∙ ap
        (λ (o : Option PodSandboxInfo). elim o [
          | none ↦ none
          | some s ↦ some (record s { state = not_ready })
        ])
        (sym had)

module _ (x : World) (m : MetaStore) (v : Services m.St) where
  open x use {W}
  open m use {St}
  open v use {E}

  -- The pod is stored as not ready, and is otherwise as before, and ReleaseFDs was called.
  pub record Stopped (id : Str) (p : PodSandboxInfo) (before after : Host W St E) : Type 0 where
    pub is : pod_record m id after.sys.meta ≡ some (record p { state = not_ready })
    pub others : (j : Str) → id ≢ j → pod_record m j after.sys.meta ≡ pod_record m j before.sys.meta
    pub same_world : before.sys.world ≡ after.sys.world
    pub released : (v.release_fds id before.services).1 ≡ after.services

  module _ (laws : SandboxLaws m) where
    release-parts :
        (id : Str) (h : Host W St E) {h' : Host W St E}
        → (attempt (on_services (v.release_fds id)) >>= λ r. pure tt) h ≡ (ok tt, h')
        → (h.sys ≡ h'.sys) × ((v.release_fds id h.services).1 ≡ h'.services)
    unfolding attempt on_services
    release-parts id h run = stepping _ _ run λ r h1 released end. (
      (λ i. (released i).1.sys) ∙ (λ i. (end i).1.sys),
      (λ i. (released i).1.services) ∙ (λ i. (end i).1.services),
    )

    stop_known-Stopped :
        (id : Str) (p : PodSandboxInfo) (h h' : Host W St E)
        → pod_record m id h.sys.meta ≡ some p
        → stop_known x m v id ready h ≡ (ok tt, h')
        → Stopped id p h h'
    unfolding stop_known
    stop_known-Stopped id p h h' was run = stepping _ _ run λ u h1 saved rest.
        let (saved', world, services) = on_store-parts _ h saved in
        let (sys, released) = release-parts id h1 rest in
        let (old, new, had, gave, is) =
          laws.saved_sandbox id stop_pod h.sys.meta h1.sys.meta saved' in
        record {
          is =
              ap (λ (s : Sys W St). pod_record m id s.meta) (sym sys)
              ∙ is
              ∙ stopped_record id p old new (sym was ∙ had) gave;
          others = λ j ne.
              ap (λ (s : Sys W St). pod_record m j s.meta) (sym sys)
              ∙ laws.kept_sandbox id j stop_pod h.sys.meta h1.sys.meta saved' ne;
          same_world = world ∙ ap (λ (s : Sys W St). s.world) sys;
          released = ap (λ e. (v.release_fds id e).1) services ∙ released;
        }

    -- A pod that is not ready is stopped without a call.
    idle :
        (id : Str) (p : PodSandboxInfo) (h : Host W St E)
        → pod_record m id h.sys.meta ≡ some p
        → p.state ≡ not_ready
        → stop_pod_sandbox x m v id h ≡ (ok tt, h)
    unfolding stop_pod_sandbox on_store stop_known
    idle id p h was stopped =
        ok->>= _ (stop_found x m v id) h h (some p) (λ i. (
          known-eq-some (m.retrieve_sandbox id h.sys.meta).0 p was i,
          record h { sys = record h.sys { meta = laws.pure_retrieve_sandbox id h.sys.meta i } },
        ))
        ∙ ap (λ st. stop_known x m v id st h) stopped

    found-Stopped :
        (id : Str) (p : PodSandboxInfo) (h h' : Host W St E) (st : PodSandboxState)
        → p.state ≡ st
        → pod_record m id h.sys.meta ≡ some p
        → stop_known x m v id st h ≡ (ok tt, h')
        → ((st ≡ not_ready) × (h' ≡ h)) ⊎ ((st ≡ ready) × Stopped id p h h')
    unfolding stop_known
    found-Stopped id p h h' not_ready is was run = inl (refl, sym (λ i. (run i).1))
    found-Stopped id p h h' ready is was run = inr (refl, stop_known-Stopped id p h h' was run)

    stop_pod_sandbox-again :
        (id : Str) (p : PodSandboxInfo) (h h' : Host W St E)
        → pod_record m id h.sys.meta ≡ some p
        → ((p.state ≡ not_ready) × (h' ≡ h)) ⊎ ((p.state ≡ ready) × Stopped id p h h')
        → stop_pod_sandbox x m v id h' ≡ (ok tt, h')
    stop_pod_sandbox-again id p h h' was (inl (stopped, same)) =
        idle id p h' (ap (λ (t : Host W St E). pod_record m id t.sys.meta) same ∙ was) stopped
    stop_pod_sandbox-again id p h h' was (inr (running, done)) =
        idle id (record p { state = not_ready }) h' done.is refl

    -- StopPodSandbox succeeds only for a pod with a record. Where the pod is not ready already,
    -- nothing has changed and no call was made; where it is ready, it is stored as not ready and
    -- otherwise as before, the other pods are as before, and ReleaseFDs was called, whose error is
    -- not returned. Stopping the pod once more succeeds and changes nothing.
    pub stop_pod_sandbox-Stopped :
        (id : Str) (h h' : Host W St E)
        → stop_pod_sandbox x m v id h ≡ (ok tt, h')
        → (p : PodSandboxInfo) × (pod_record m id h.sys.meta ≡ some p)
          × (((p.state ≡ not_ready) × (h' ≡ h)) ⊎ ((p.state ≡ ready) × Stopped id p h h'))
          × (stop_pod_sandbox x m v id h' ≡ (ok tt, h'))
    unfolding stop_pod_sandbox
    stop_pod_sandbox-Stopped id h h' run = stepping _ _ run λ info h1 looked rest.
        let (same, known_is) = retrieved-parts m laws id h looked in
        of_info info (sym known_is) (ap (stop_found x m v id info) same ∙ rest)
      where
        of_info :
            (info : Option PodSandboxInfo)
            → pod_record m id h.sys.meta ≡ info
            → stop_found x m v id info h ≡ (ok tt, h')
            → (p : PodSandboxInfo) × (pod_record m id h.sys.meta ≡ some p)
              × (((p.state ≡ not_ready) × (h' ≡ h)) ⊎ ((p.state ≡ ready) × Stopped id p h h'))
              × (stop_pod_sandbox x m v id h' ≡ (ok tt, h'))
        of_info none was stop =
            let k : err (errorf "sandbox not found in Virtlet metadata store") ≡ ok tt =
              λ i. (stop i).0 in
            absurd (cc)
        of_info (some p) was stop =
            let done = found-Stopped id p h h' p.state refl was stop in
            (p, was, done, stop_pod_sandbox-again id p h h' was done)
