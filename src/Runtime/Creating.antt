-- ===== src/Runtime/Creating.antt =====
-- runtime.go: what a CreateContainer that succeeds has done.
use virtlet.Prelude.{Str, Option, none, some, List, [], ◌∷◌, ◌≡◌, ◌⊎◌}
use virtlet.Result.{Result, ok}
use virtlet.Types.{CniResult, ContainerSideNetwork, VmConfig}
use virtlet.World.{World}
use virtlet.MetaStore.{MetaStore}
use virtlet.Tool.State.{Sys}
use virtlet.Tool.Settings.{VirtualizationConfig}
use virtlet.Tool.Networked.{Networked}
use virtlet.Tool.Create
use virtlet.Tool.Created.{Created}
use virtlet.Runtime.Messages.{CreateContainerRequest}
use virtlet.Runtime.Convert.{get_vm_config}
use virtlet.Runtime.Asked.{AsAsked}
use virtlet.Runtime.Host.{Host, Services}

module _ (x : World) (m : MetaStore) (v : Services m.St) (vc : VirtualizationConfig) where
  open x use {W}
  open m use {St}
  open v use {E}

  -- The state once the containers of the pod were listed.
  abbrev pub after_listing : Str → Host W St E → Sys W St
  after_listing id h = record h.sys { meta = (m.list_pod_containers id h.sys.meta).1 }

  abbrev listing : Str → Host W St E → Result (List Str) × Sys W St
  listing id h = ((m.list_pod_containers id h.sys.meta).0, after_listing id h)

  -- The key of the descriptors: the pod's ID where its network was described, else nothing.
  abbrev pub IsNetKey : Option ContainerSideNetwork → Str → Str → Type 0
  IsNetKey none id key = key ≡ []
  IsNetKey (some csn) id key =
      ((csn.result ≡ none) × (key ≡ []))
      ⊎ ((res : CniResult) × (csn.result ≡ some res) × (key ≡ id))

  -- Either the first container of the pod has the pod's network now, or the pod had none that
  -- could be listed, and one was made from the request.
  pub data Chosen (r : CreateContainerRequest) (csn : Option ContainerSideNetwork) (ids : List Str)
      (id : Str) (before after : Sys W St) : Type 0 where
    existing :
        (rest : List Str)
        → ids ≡ id ∷ rest
        → Networked x m id csn before.meta after.meta
        → Chosen r csn ids id before after
    new :
        (config : VmConfig) (key : Str)
        → ids ≡ []
        → get_vm_config r csn ≡ ok config
        → AsAsked r csn config
        → IsNetKey csn r.pod_sandbox_id key
        → Created x m vc config key id before after
        → Chosen r csn ids id before after
