-- ===== src/MetaStore.antt =====
-- pkg/metadata/store.go: the interface Store, as the virtualization tool and the garbage collector
-- use it. An instance's operations act on its own state `St`.
use virtlet.Prelude.{Str, false, ◌≡◌, ◌≢◌, Option, none, some, List}
use virtlet.Result.{Error, Result, ok, err, known, succeeded}
use virtlet.Prog.{Prog}
use virtlet.Types.{ContainerInfo, PodSandboxInfo, PodSandboxFilter}

-- The handler that Save takes: from the current value to the new one; `none` is nil.
abbrev pub Updater : Type 0 → Type 0
Updater A = Option A → Result (Option A)

pub record MetaStore : Type 1 where
  pub St : Type 0
  -- Container(id).Retrieve and Container(id).Save
  pub retrieve : Str → Prog St (Option ContainerInfo)
  pub save : Str → Updater ContainerInfo → Prog St (Unit {0})
  -- PodSandbox(id).Retrieve and PodSandbox(id).Save
  pub retrieve_sandbox : Str → Prog St (Option PodSandboxInfo)
  pub save_sandbox : Str → Updater PodSandboxInfo → Prog St (Unit {0})
  -- the IDs of the containers of a pod, and of the pods that pass the filter
  pub list_pod_containers : Str → Prog St (List Str)
  pub list_pod_sandboxes : Option PodSandboxFilter → Prog St (List Str)

-- newData.Id = m.GetID()
abbrev pub with_id : Str → Option ContainerInfo → Option ContainerInfo
with_id id none = none
with_id id (some c) = some (record c { id = id })

module _ (m : MetaStore) where
  open m use {St, retrieve, save}

  -- What a client relies on.
  pub record StoreLaws : Type 0 where
    -- reading changes nothing
    pub pure_retrieve : (id : Str) (s : St) → (retrieve id s).1 ≡ s
    -- a successful Save has read the current value, applied the handler and stored its result
    pub saved :
        (id : Str) (f : Updater ContainerInfo) (s s' : St)
        → save id f s ≡ (ok tt, s')
        → (old : Option ContainerInfo) × (new : Option ContainerInfo) × ((retrieve id s).0 ≡ ok old)
          × (f old ≡ ok new)
          × ((retrieve id s').0 ≡ ok (with_id id new))
    -- and has left every other container alone
    pub kept :
        (id j : Str) (f : Updater ContainerInfo) (s s' : St)
        → save id f s ≡ (ok tt, s')
        → id ≢ j
        → (retrieve j s').0 ≡ (retrieve j s).0
    -- a Save that fails is rolled back
    pub rolled_back :
        (id : Str) (f : Updater ContainerInfo) (s s' : St) (e : Error)
        → save id f s ≡ (err e, s')
        → s' ≡ s

-- psi.PodID = s.GetID()
abbrev pub with_pod : Str → Option PodSandboxInfo → Option PodSandboxInfo
with_pod id none = none
with_pod id (some p) = some (record p { pod_id = id })

module _ (m : MetaStore) where
  open m use {St, retrieve_sandbox, save_sandbox}

  -- The record of a pod, for a client that tells no missing pod from an unreadable one.
  abbrev pub pod_record : Str → St → Option PodSandboxInfo
  pod_record id s = known (retrieve_sandbox id s).0

  -- What a client of the sandboxes relies on. Save of a sandbox that is not there yet gives nil to
  -- the handler, and Retrieve of it fails.
  pub record SandboxLaws : Type 0 where
    pub pure_retrieve_sandbox : (id : Str) (s : St) → (retrieve_sandbox id s).1 ≡ s
    pub saved_sandbox :
        (id : Str) (f : Updater PodSandboxInfo) (s s' : St)
        → save_sandbox id f s ≡ (ok tt, s')
        → (old : Option PodSandboxInfo) × (new : Option PodSandboxInfo) × (pod_record id s
            ≡ with_pod id old)
          × (f old ≡ ok new)
          × (pod_record id s' ≡ with_pod id new)
    pub kept_sandbox :
        (id j : Str) (f : Updater PodSandboxInfo) (s s' : St)
        → save_sandbox id f s ≡ (ok tt, s')
        → id ≢ j
        → pod_record j s' ≡ pod_record j s
    pub rolled_back_sandbox :
        (id : Str) (f : Updater PodSandboxInfo) (s s' : St) (r : Result (Unit {0}))
        → save_sandbox id f s ≡ (r, s')
        → succeeded r ≡ false
        → s' ≡ s
