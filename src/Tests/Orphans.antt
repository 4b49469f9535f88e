-- ===== src/Tests/Orphans.antt =====
-- The garbage collector and the reports on the test machine.
use virtlet.Prelude.{
  Str, codes, str_eq, has_prefix, All, take, false, inl, Option, none, some, [], ◌∷◌, ◌++◌, ◌≡◌,
  refl, arith,
}
use virtlet.Result.{ok}
use virtlet.Types.{ContainerInfo, created, ContainerFilter}
use virtlet.Prog.{◌>>=◌}
use virtlet.Tool.State.{Sys, on_meta, on_world}
use virtlet.Tool.Create.{domain_name_of}
use virtlet.Tool.Query.{
  virt_to_kube_state, filter_container, list_containers, container_info, refresh, same_state,
  keep_matching, state_matches, labels_match,
}
use virtlet.Tool.Reports.{Satisfies, list_containers-All}
use virtlet.Gc.Names.{in_list, is_domain_of, base, root_prefix}
use virtlet.Gc.Collect.{orphan_domain}
use virtlet.Gc.Safety.{orphan_domain_keeps}
use virtlet.Tests.Machine.{Machine, machine, fresh}
use virtlet.Tests.Shelf.{shelf, some_info, with_one}

abbrev pub vm_id : Str
vm_id = codes "0123456789abcdef"

abbrev vm_domain : Str
vm_domain = domain_name_of (take 13 vm_id) (codes "vm")

orphan_domain_keeps_example : orphan_domain machine (vm_id ∷ []) vm_domain fresh ≡ (ok [], fresh)
orphan_domain_keeps_example =
    orphan_domain_keeps machine (vm_id ∷ []) vm_id (codes "vm") vm_domain fresh fresh (inl refl)
      (omega arith, tt) (omega arith) refl

abbrev stray : Str
stray = codes "virtlet-stray"

stray_belongs_to_none : in_list (vm_id ∷ []) (is_domain_of stray) ≡ ok false
unfolding in_list is_domain_of has_prefix
stray_belongs_to_none = refl

abbrev pub root_path : Str
root_path = codes "/virtlet/virtlet_root_0123456789abcdef"

pub root_path-base : base root_path ≡ root_prefix ++ vm_id
unfolding base
root_path-base = refl

abbrev by_id : ContainerFilter
by_id = record { id = vm_id; state = some created; pod_sandbox_id = []; label_selector = none }

abbrev before : Sys Machine (Str → Option ContainerInfo)
before = record { world = fresh; meta = with_one }

listed : list_containers machine shelf (some by_id) before ≡ (ok (some_info ∷ []), before)
unfolding list_containers container_info refresh virt_to_kube_state same_state keep_matching
    filter_container state_matches labels_match on_world on_meta ◌>>=◌ str_eq
listed = refl

list_containers-All_example : All (Satisfies machine shelf by_id) (some_info ∷ [])
list_containers-All_example =
    list_containers-All machine shelf by_id before before (some_info ∷ []) listed
