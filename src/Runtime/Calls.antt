-- ===== src/Runtime/Calls.antt =====
-- runtime.go: while kubelet runs, stops and removes pods, a pod that is ready keeps its network.
use virtlet.Prelude.{Str, Option, ◌≡◌}
use virtlet.Result.{Result}
use virtlet.Types.{ContainerSideNetwork}
use virtlet.World.{World}
use virtlet.MetaStore.{MetaStore, SandboxLaws}
use virtlet.Runtime.Messages.{CriPodConfig}
use virtlet.Runtime.Host.{Host, Services}
use virtlet.Runtime.Pods.{remove_pod_sandbox, run_pod_sandbox, stop_pod_sandbox}
use virtlet.Runtime.Wired.{FdLaws, IsWired}

module _ (x : World) (m : MetaStore) (v : Services m.St) where
  open x use {W}
  open m use {St}
  open v use {E}

  module _ (parse : Str → Result (Option ContainerSideNetwork)) where
    -- One call of kubelet's, whatever comes of it.
    pub data PodStep (h h' : Host W St E) : Type 0 where
      ran :
          (c : Option CriPodConfig) (r : Result Str)
          → run_pod_sandbox x m v parse c h ≡ (r, h')
          → PodStep h h'
      stopped :
          (id : Str) (r : Result (Unit {0})) → stop_pod_sandbox x m v id h ≡ (r, h') → PodStep h h'
      removed :
          (id : Str) (r : Result (Unit {0}))
          → remove_pod_sandbox x m v id h ≡ (r, h')
          → PodStep h h'

    pub data PodSteps (h : Host W St E) : Host W St E → Type 0 where
      start : PodSteps h h
      next : {t u : Host W St E} → PodSteps h t → PodStep t u → PodSteps h u

    module _ (laws : SandboxLaws m) (Holds : Str → E → Type 0) (fd_laws : FdLaws v Holds) where
      abbrev Wired : Host W St E → Type 0
      Wired = IsWired x m v parse laws Holds fd_laws
