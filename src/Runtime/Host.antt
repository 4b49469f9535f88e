-- ===== src/Runtime/Host.antt =====
-- runtime.go: the state behind VirtletRuntimeService, and the services that it is given.
use virtlet.Prelude.{Str, Option}
use virtlet.Prog.{Prog}
use virtlet.Types.{DnsConfig}
use virtlet.Tool.State.{Sys}
use virtlet.Runtime.Messages.{AttachRequest}

-- tapmanager.PodNetworkDesc
pub record PodNetworkDesc : Type 0 where
  pub pod_id : Str
  pub pod_ns : Str
  pub pod_name : Str
  pub dns : Option DnsConfig

-- fdManager, gcHandler, streamServer and the image manager's FilesystemStats, over the state `E` of
-- all of these. The garbage collection reads the metadata store, whose state is `St`.
pub record Services (St : Type 0) : Type 1 where
  pub E : Type 0
  -- fdManager.AddFDs of a key and a description, and fdManager.ReleaseFDs
  pub add_fds : Str → PodNetworkDesc → Prog E Str
  pub release_fds : Str → Prog E (Unit {0})
  -- gcHandler.GC
  pub gc : St → Prog E (Unit {0})
  -- streamServer.GetAttach, which answers with a URL
  pub get_attach : AttachRequest → Prog E Str
  -- the mount point in ImageManager().FilesystemStats
  pub mountpoint : Prog E Str

-- What the tool acts on, and the state of the services.
pub record Host (W St E : Type 0) : Type 0 where
  pub sys : Sys W St
  pub services : E

module _ {W St E : Type 0} where
  unfoldable pub on_sys : {A : Type 0} → Prog (Sys W St) A → Prog (Host W St E) A
  on_sys m h = let (r, s) = m h.sys in (r, record h { sys = s })

  unfoldable pub on_services : {A : Type 0} → Prog E A → Prog (Host W St E) A
  on_services m h = let (r, e) = m h.services in (r, record h { services = e })

  -- A call on the metadata store.
  unfoldable pub on_store : {A : Type 0} → Prog St A → Prog (Host W St E) A
  on_store m h = let (r, t) = m h.sys.meta in (r, record h { sys = record h.sys { meta = t } })
