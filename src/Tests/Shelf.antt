-- ===== src/Tests/Shelf.antt =====
-- A metadata store for the tests: a function from IDs to records.
use virtlet.Prelude.{
  Str, codes, str_eq, str_eq_refl, str_eq→eq, Bool, Bool-cases, Option, none, some, [], ◌≡◌, ◌≢◌,
  refl, sym, ap, ◌∙◌, inl, inr, if◌then◌else◌,
}
use virtlet.Prelude.Int.{pos}
use virtlet.Result.{Error, Result, ok, err, fault}
use virtlet.Types.{ContainerInfo, ContainerState, VmConfig}
use virtlet.MetaStore.{MetaStore, StoreLaws, Updater, with_id}

abbrev Shelf : Type 0
Shelf = Str → Option ContainerInfo

abbrev put_back : Shelf → Str → Result (Option ContainerInfo) → Result (Unit {0}) × Shelf
put_back s id (ok new) = (ok tt, λ j. if str_eq id j then with_id id new else s j)
put_back s id (err e) = (err e, s)
put_back s id (fault f) = (fault f, s)

abbrev pub shelf : MetaStore
shelf = record {
  St = Shelf;
  retrieve = λ id s. (ok (s id), s);
  save = λ id f s. put_back s id (f (s id));
  retrieve_sandbox = λ id s. (ok none, s);
  save_sandbox = λ id f s. (ok tt, s);
  list_pod_containers = λ p s. (ok [], s);
  list_pod_sandboxes = λ f s. (ok [], s);
}

shelf_saved :
    (id : Str) (f : Updater ContainerInfo) (s s' : Shelf) (r : Result (Option ContainerInfo))
    → f (s id) ≡ r
    → put_back s id r ≡ (ok tt, s')
    → (new : Option ContainerInfo) × (f (s id) ≡ ok new) × (s' id ≡ with_id id new)
shelf_saved id f s s' (ok new) e h = (
  new,
  e,
  sym (λ i. (h i).1 id) ∙ ap (λ (t : Bool). if t then with_id id new else s id) (str_eq_refl id),
)
shelf_saved id f s s' (err x) e h = let k : err x ≡ ok tt = λ i. (h i).0 in absurd (cc)
shelf_saved id f s s' (fault x) e h = let k : fault x ≡ ok tt = λ i. (h i).0 in absurd (cc)

shelf_kept :
    (id j : Str) (s s' : Shelf) (r : Result (Option ContainerInfo))
    → put_back s id r ≡ (ok tt, s')
    → id ≢ j
    → s' j ≡ s j
shelf_kept id j s s' (ok new) h ne = elim (Bool-cases (str_eq id j)) [
  | inl same ↦ absurd (ne (str_eq→eq id j same))
  | inr apart ↦ sym (λ i. (h i).1 j) ∙ ap (λ (t : Bool). if t then with_id id new else s j) apart
]
shelf_kept id j s s' (err x) h ne = let k : err x ≡ ok tt = λ i. (h i).0 in absurd (cc)
shelf_kept id j s s' (fault x) h ne = let k : fault x ≡ ok tt = λ i. (h i).0 in absurd (cc)

shelf_rolled_back :
    (id : Str) (s s' : Shelf) (e : Error) (r : Result (Option ContainerInfo))
    → put_back s id r ≡ (err e, s')
    → s' ≡ s
shelf_rolled_back id s s' e (ok new) h = let k : ok tt ≡ err e = λ i. (h i).0 in absurd (cc)
shelf_rolled_back id s s' e (err x) h = sym (λ i. (h i).1)
shelf_rolled_back id s s' e (fault x) h = let k : fault x ≡ err e = λ i. (h i).0 in absurd (cc)

pub shelf-StoreLaws : StoreLaws shelf
shelf-StoreLaws = record {
  pure_retrieve = λ id s. refl;
  saved = λ id f s s' h.
      let (new, gave, is) = shelf_saved id f s s' (f (s id)) refl h in
      (s id, new, refl, gave, ap ok is);
  kept = λ id j f s s' h ne. ap ok (shelf_kept id j s s' (f (s id)) h ne);
  rolled_back = λ id f s s' e h. shelf_rolled_back id s s' e (f (s id)) h;
}

abbrev pub some_config : VmConfig
some_config = record {
  pod_sandbox_id = codes "pod1";
  pod_name = codes "pod";
  pod_namespace = codes "default";
  name = codes "vm";
  image = codes "cirros";
  attempt = 0;
  memory_limit_in_bytes = pos 0;
  cpu_shares = pos 0;
  cpu_period = pos 0;
  cpu_quota = pos 0;
  pod_annotations = [];
  container_annotations = [];
  container_labels = [];
  parsed_annotations = none;
  domain_uuid = codes "0123456789abcdef";
  environment = [];
  mounts = [];
  volume_devices = [];
  container_side_network = none;
  log_directory = [];
  log_path = [];
}

abbrev pub some_info : ContainerInfo
some_info = record {
  id = codes "0123456789abcdef";
  name = codes "vm";
  created_at = 50;
  started_at = 0;
  state = ContainerState.created;
  config = some_config;
}

abbrev pub with_one : Shelf
with_one = λ id. if str_eq id (codes "0123456789abcdef") then some some_info else none
