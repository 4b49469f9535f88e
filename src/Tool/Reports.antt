-- ===== src/Tool/Reports.antt =====
-- What the tool reports: the states of containers, and the filter of ListContainers.
use mathlib.Core.Path.{subst}
use virtlet.Prelude.{
  Str, str_eq, str_eq→eq, str_eq_refl, ◌≡◌, ◌↔◌, ◌⊎◌, inl, inr, refl, Bool, true, false, Bool-cases,
  not, ◌&&◌, Option, none, some, List, [], ◌∷◌, All, if◌then◌else◌, arith,
}
use virtlet.Result.{ok, ok_injective}
use virtlet.Prog.{pure}
use virtlet.Prog.Laws.{stepping}
use virtlet.Types.{ContainerInfo, ContainerState, created, running, ContainerFilter, StrMap}
use virtlet.Types.Domain.{DomainState}
use virtlet.World.{World}
use virtlet.MetaStore.{MetaStore}
use virtlet.Tool.State.{Sys}
use virtlet.Tool.Query.{
  state_matches, labels_match, id_of, pod_of, of_info, virt_to_kube_state, same_state,
  filter_container, keep_matching, list_containers,
}

-- Exactly a domain that runs or is being shut down makes a running container; exactly a paused or
-- shut off domain of a container that was never started makes a created one; and asking again with
-- the new state changes nothing.
pub virt_to_kube_state_lem :
    (d : DomainState) (last : ContainerState)
    → ((virt_to_kube_state d last ≡ running)
        ↔ ((d ≡ DomainState.running) ⊎ (d ≡ DomainState.shutdown)))
      × ((virt_to_kube_state d last ≡ created)
          ↔ ((last ≡ created) × ((d ≡ DomainState.paused) ⊎ (d ≡ DomainState.shutoff))))
      × (virt_to_kube_state d (virt_to_kube_state d last) ≡ virt_to_kube_state d last)
unfolding virt_to_kube_state
virt_to_kube_state_lem d last = (
  ((λ h. ground arith), (λ h. ground arith)),
  ((λ h. ground arith), (λ h. ground arith)),
  ground arith,
)

pub same_state→eq : (a b : ContainerState) → same_state a b ≡ true → a ≡ b
unfolding same_state
same_state→eq a b h = ground arith

module _ (x : World) (m : MetaStore) where
  open x use {W, Domain, selector_matches}
  open m use {St, retrieve}

  -- One condition of a filter: the field is left out, or the container has its value.
  abbrev Agrees : {A : Type 0} → A → A → A → Type 0
  Agrees unset wanted a = (wanted ≡ unset) ⊎ (a ≡ wanted)

  abbrev MatchesLabels : Option StrMap → StrMap → Type 0
  MatchesLabels none labels = Unit
  MatchesLabels (some selector) labels = selector_matches selector labels ≡ true

  abbrev MatchesState : Option ContainerState → ContainerState → Type 0
  MatchesState none st = Unit
  MatchesState (some wanted) st = wanted ≡ st

  Agrees-iff :
      (wanted a : Str)
      → ((not (str_eq wanted []) && not (str_eq a wanted)) ≡ false) ↔ Agrees [] wanted a
  Agrees-iff wanted a = (
    (λ h. ground (arith, str_eq→eq wanted [], str_eq→eq a wanted)),
    (λ h. ground (arith, str_eq_refl wanted)),
  )

  state_iff :
      (o : Option ContainerState) (st : ContainerState)
      → (state_matches o st ≡ true) ↔ MatchesState o st
  unfolding state_matches same_state
  state_iff none st = ((λ h. tt), (λ h. refl))
  state_iff (some wanted) st = ((λ h. ground arith), (λ h. ground arith))

  labels_iff :
      (o : Option StrMap) (labels : StrMap)
      → (labels_match x m o labels ≡ true) ↔ MatchesLabels o labels
  unfolding labels_match
  labels_iff none labels = ((λ h. tt), (λ h. refl))
  labels_iff (some selector) labels = ((λ h. h), (λ h. h))

  early_returns :
      (a b c d : Bool)
      → ((if a then false else if b then false else if not c then false else d) ≡ true)
        ↔ ((a ≡ false) × (b ≡ false) × (c ≡ true) × (d ≡ true))
  early_returns a b c d = ((λ h. ground arith), (λ h. ground arith))

  -- The container agrees with each condition of the filter that is set.
  abbrev pub Satisfies : ContainerFilter → ContainerInfo → Type 0
  Satisfies f c =
      Agrees [] f.id c.id
      × Agrees [] f.pod_sandbox_id c.config.pod_sandbox_id
      × MatchesState f.state c.state
      × MatchesLabels f.label_selector c.config.container_labels

  -- The filter passes a container exactly if it agrees with each condition that is set.
  pub filter_container_lem :
      (c : ContainerInfo) (f : ContainerFilter) → (filter_container x m c f ≡ true) ↔ Satisfies f c
  unfolding filter_container
  filter_container_lem c f =
      let tests = early_returns _ _ _ _ in
      (
        (λ h.
            let (a, b, st, l) = tests.0 h in
            (
              (Agrees-iff f.id c.id).0 a,
              (Agrees-iff f.pod_sandbox_id c.config.pod_sandbox_id).0 b,
              (state_iff f.state c.state).0 st,
              (labels_iff f.label_selector c.config.container_labels).0 l,
            )),
        (λ h. tests.1 (
          (Agrees-iff f.id c.id).1 h.0,
          (Agrees-iff f.pod_sandbox_id c.config.pod_sandbox_id).1 h.1,
          (state_iff f.state c.state).1 h.2,
          (labels_iff f.label_selector c.config.container_labels).1 h.3,
        )),
      )

  keep_matching-All :
      (f : ContainerFilter) (cs : List ContainerInfo) → All (Satisfies f) (keep_matching x m f cs)
  unfolding keep_matching
  keep_matching-All f [] = tt
  keep_matching-All f (c ∷ cs) = elim (Bool-cases (filter_container x m c f)) [
    | inl yes' ↦ rw yes' ((filter_container_lem c f).0 yes', keep_matching-All f cs)
    | inr no' ↦ rw no' (keep_matching-All f cs)
  ]

  kept_by_filter :
      (f : ContainerFilter) (found : List ContainerInfo) (s s' : Sys W St) (cs : List ContainerInfo)
      → pure (keep_matching x m f found) s ≡ (ok cs, s')
      → All (Satisfies f) cs
  kept_by_filter f found s s' cs h =
      subst (All (Satisfies f)) (ok_injective (λ i. (h i).0)) (keep_matching-All f found)

  -- Whatever way the containers are found, by ID, by pod or from all the domains, each one that
  -- ListContainers returns has the ID, the pod, the state and the labels that the filter asks for,
  -- where it asks for one.
  pub list_containers-All :
      (f : ContainerFilter) (s s' : Sys W St) (cs : List ContainerInfo)
      → list_containers x m (some f) s ≡ (ok cs, s')
      → All (Satisfies f) cs
  unfolding list_containers
  list_containers-All f s s' cs h = elim (Bool-cases (not (str_eq (id_of (some f)) []))) [
    | inl by_id ↦
        stepping _ _ (rw by_id at h) λ info t _ r. kept_by_filter f (of_info info) t s' cs r
    | inr no_id ↦ elim (Bool-cases (not (str_eq (pod_of (some f)) []))) [
      | inl by_pod ↦
          stepping _ _ (rw by_pod at (rw no_id at h))
            λ info t _ r. kept_by_filter f (of_info info) t s' cs r
      | inr no_pod ↦
          stepping _ _ (rw no_pod at (rw no_id at h))
            λ domains t _ q. stepping _ _ q λ found u _ r. kept_by_filter f found u s' cs r
    ]
  ]
