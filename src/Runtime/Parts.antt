-- ===== src/Runtime/Parts.antt =====
-- What a call on one part of the host leaves of the others.
use virtlet.Prelude.{Str, Option, ◌≡◌, sym, ap, ◌∙◌}
use virtlet.Result.{Result, known}
use virtlet.Prog.{Prog}
use virtlet.Types.{PodSandboxInfo}
use virtlet.MetaStore.{MetaStore, SandboxLaws, pod_record}
use virtlet.Tool.State.{Sys}
use virtlet.Runtime.Host.{Host, on_services, on_store, on_sys}

module _ {W St E A : Type 0} where
  pub on_services-parts :
      (p : Prog E A) (h : Host W St E) {r : Result A} {t : Host W St E}
      → on_services p h ≡ (r, t)
      → (p h.services ≡ (r, t.services)) × (h.sys ≡ t.sys)
  unfolding on_services
  on_services-parts p h e = ((λ i. ((e i).0, (e i).1.services)), (λ i. (e i).1.sys))

  pub on_sys-parts :
      (p : Prog (Sys W St) A) (h : Host W St E) {r : Result A} {t : Host W St E}
      → on_sys p h ≡ (r, t)
      → (p h.sys ≡ (r, t.sys)) × (h.services ≡ t.services)
  unfolding on_sys
  on_sys-parts p h e = ((λ i. ((e i).0, (e i).1.sys)), (λ i. (e i).1.services))

  pub on_store-parts :
      (p : Prog St A) (h : Host W St E) {r : Result A} {t : Host W St E}
      → on_store p h ≡ (r, t)
      → (p h.sys.meta ≡ (r, t.sys.meta)) × (h.sys.world ≡ t.sys.world) × (h.services ≡ t.services)
  unfolding on_store
  on_store-parts p h e =
      ((λ i. ((e i).0, (e i).1.sys.meta)), (λ i. (e i).1.sys.world), (λ i. (e i).1.services))

module _ {W E : Type 0} (m : MetaStore) (laws : SandboxLaws m) where
  -- A look at a pod's record changes nothing.
  pub retrieved-parts :
      (id : Str) (h : Host W m.St E) {r : Result (Option PodSandboxInfo)} {t : Host W m.St E}
      → on_store (m.retrieve_sandbox id) h ≡ (r, t)
      → (h ≡ t) × (known r ≡ pod_record m id h.sys.meta)
  unfolding on_store
  retrieved-parts id h e = (
    sym (
          ap (λ (s : m.St). record h { sys = record h.sys { meta = s } })
            (laws.pure_retrieve_sandbox id h.sys.meta))
        ∙ ap (λ (p : Result (Option PodSandboxInfo) × Host W m.St E). p.1) e,
    sym (ap (λ (p : Result (Option PodSandboxInfo) × Host W m.St E). known p.0) e),
  )
