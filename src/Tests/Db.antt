-- ===== src/Tests/Db.antt =====
-- A small bolt database and an encoding that knows two records.
use native.Mathlib.Decide.{ℕ_discrete}
use virtlet.Prelude.{
  Str, codes, str_eq, str_eq→eq, Bool, Bool-cases, true, false, ◌&&◌, Option, none, some, [], ◌∷◌,
  ◌≡◌, refl, sym, ap, ◌∙◌, inl, inr, if◌then◌else◌, arith,
}
use virtlet.Result.{Result, ok, err, errorf, ok_injective}
use virtlet.Prog.{◌>>=◌}
use virtlet.Types.{ContainerInfo, PodSandboxInfo, ready, not_ready}
use virtlet.MetaStore.{MetaStore, SandboxLaws, StoreLaws, Updater}
use virtlet.Metadata.Bolt.{Bolt, BoltLaws, Codec, decode, update}
use virtlet.Metadata.Containers.{
  save, save_in, store, put_record, relink, add_container_to_sandbox, remove_container_from_sandbox,
}
use virtlet.Metadata.Saved.{Handled}
use virtlet.Metadata.Store.{save-Handled, bolt_store, bolt_store-StoreLaws}
use virtlet.Metadata.Sandboxes.{retrieve_sandbox, save_sandbox, save_sandbox_in, store_sandbox}
use virtlet.Metadata.PodLaws.{bolt_store-SandboxLaws}
use virtlet.Metadata.Dangling.{NoDangling, save-NoDangling}
use virtlet.Tests.Shelf.{some_info, some_config}

-- The buckets that there are, and their entries.
abbrev Buckets : Type 0
Buckets = Str → Option (Str → Option Str)

abbrev entry : Option (Str → Option Str) → Str → Option Str
entry none k = none
entry (some f) k = f k

abbrev there : Option (Str → Option Str) → Bool
there none = false
there (some f) = true

abbrev or_empty : Option (Str → Option Str) → Option (Str → Option Str)
or_empty none = some (λ k. none)
or_empty (some f) = some f

abbrev changed : Str → Option (Str → Option Str) → Buckets → Buckets
changed n bucket db = λ c. if str_eq n c then bucket else db c

abbrev entered :
    Str → Str → Option Str → Option (Str → Option Str) → Buckets → Result (Unit {0}) × Buckets
entered n k v none db = (err (errorf "no such bucket"), db)
entered n k v (some f) db = (ok tt, changed n (some (λ j. if str_eq k j then v else f j)) db)

abbrev bolt : Bolt
bolt = record {
  Db = Buckets;
  has_bucket = λ n db. there (db n);
  create_bucket_if_not_exists = λ n db. (ok tt, changed n (or_empty (db n)) db);
  delete_bucket = λ n db. (ok tt, changed n none db);
  get = λ n k db. entry (db n) k;
  put = λ n k v db. entered n k (some v) (db n) db;
  delete = λ n k db. entered n k none (db n) db;
  seek_buckets = λ p db. [];
  seek = λ n p db. [];
  commit = λ db. ok tt;
}

entry-changed :
    (n c k : Str) (bucket : Option (Str → Option Str)) (db : Buckets)
    → entry (changed n bucket db c) k ≡ (if str_eq n c then entry bucket k else entry (db c) k)
entry-changed n c k bucket db = ground arith

entry-or_empty : (o : Option (Str → Option Str)) (k : Str) → entry (or_empty o) k ≡ entry o k
entry-or_empty none k = refl
entry-or_empty (some f) k = refl

entry-created :
    (n c k : Str) (db : Buckets) → entry (changed n (or_empty (db n)) db c) k ≡ entry (db c) k
entry-created n c k db = elim (Bool-cases (str_eq n c)) [
  | inl same ↦ rw same (entry-or_empty (db n) k ∙ ap (λ m. entry (db m) k) (str_eq→eq n c same))
  | inr apart ↦ rw apart
]

entry-entered :
    (n k : Str) (v : Option Str) (c j : Str) (o : Option (Str → Option Str)) (db db' : Buckets)
    → db n ≡ o
    → entered n k v o db ≡ (ok tt, db')
    → entry (db' c) j ≡ (if str_eq n c && str_eq k j then v else entry (db c) j)
entry-entered n k v c j none db db' is h =
    let clash : err (errorf "no such bucket") ≡ ok tt = λ i. (h i).0 in absurd (cc)
entry-entered n k v c j (some f) db db' is h =
    sym (λ i. entry ((h i).1 c) j) ∙ elim (Bool-cases (str_eq n c)) [
      | inl same ↦
          let old : entry (db c) j ≡ f j =
            ap (λ m. entry (db m) j) (sym (str_eq→eq n c same)) ∙ ap (λ b. entry b j) is in
          rw (same, old)
      | inr apart ↦ rw apart
    ]

absent : (o : Option (Str → Option Str)) (k : Str) → there o ≡ false → entry o k ≡ none
absent none k gone = refl
absent (some f) k gone = absurd (cc)

bolt-BoltLaws : BoltLaws bolt
bolt-BoltLaws = record {
  get_absent = λ n k db gone. absent (db n) k gone;
  get-create = λ n c k db db' h. sym (λ i. entry ((h i).1 c) k) ∙ entry-created n c k db;
  get-put = λ n k v c j db db' h. entry-entered n k (some v) c j (db n) db db' refl h;
  get-delete = λ n k c j db db' h. entry-entered n k none c j (db n) db db' refl h;
  get-delete_bucket =
      λ n c k db db' h. sym (λ i. entry ((h i).1 c) k) ∙ entry-changed n c k none db;
}

-- The records before and after the container went to another pod.
abbrev first_info : ContainerInfo
first_info = some_info

abbrev moved_info : ContainerInfo
moved_info = record some_info { config = record some_config { pod_sandbox_id = codes "pod2" } }

unfoldable ContainerInfo-discrete : Discrete ContainerInfo
ContainerInfo-discrete = hlevel (ℕ_discrete)

abbrev code_of : {A B : Type 0} → Dec A → Dec B → Result Str
code_of (yes first) moved = ok (1 ∷ [])
code_of (no other) (yes moved) = ok (2 ∷ [])
code_of (no other) (no neither) = err (errorf "cannot be encoded")

abbrev parse : Str → Result ContainerInfo
parse s = if str_eq s (1 ∷ []) then ok first_info else ok moved_info

parse-code_of :
    (c : ContainerInfo) (s : Str) (d : Dec (first_info ≡ c)) (e : Dec (moved_info ≡ c))
    → code_of d e ≡ ok s
    → parse s ≡ ok c
unfolding str_eq
parse-code_of c s (yes first) e h = ap parse (sym (ok_injective h)) ∙ ap ok first
parse-code_of c s (no other) (yes moved) h = ap parse (sym (ok_injective h)) ∙ ap ok moved
parse-code_of c s (no other) (no neither) h = absurd (cc)

abbrev json : Codec ContainerInfo
json = record {
  marshal =
      λ c. code_of (ContainerInfo-discrete first_info c) (ContainerInfo-discrete moved_info c);
  unmarshal = parse;
  unmarshal-marshal = λ c s h. parse-code_of c s _ _ h;
}

-- The container of pod "pod1" is stored; then it moves to pod "pod2".
abbrev vm_id : Str
vm_id = codes "0123456789abcdef"

abbrev write_first : Updater ContainerInfo
write_first old = ok (some first_info)

abbrev move : Updater ContainerInfo
move old = ok (some moved_info)

abbrev empty : Buckets
empty = λ n. none

abbrev stored : Buckets
stored = (save bolt json vm_id write_first empty).1

abbrev moved : Buckets
moved = (save bolt json vm_id move stored).1

stores : save bolt json vm_id write_first empty ≡ (ok tt, stored)
unfolding save save_in store update decode put_record relink add_container_to_sandbox
    remove_container_from_sandbox ContainerInfo-discrete ℕ_discrete ◌>>=◌ str_eq
stores = refl

moves : save bolt json vm_id move stored ≡ (ok tt, moved)
unfolding save save_in store update decode put_record relink add_container_to_sandbox
    remove_container_from_sandbox ContainerInfo-discrete ℕ_discrete ◌>>=◌ str_eq
moves = refl

empty-NoDangling : NoDangling bolt json empty
unfolding NoDangling
empty-NoDangling p j there = absurd (there refl)

stored-NoDangling : NoDangling bolt json stored
stored-NoDangling =
    save-NoDangling bolt bolt-BoltLaws json vm_id write_first empty stored empty-NoDangling stores

save-NoDangling_example : NoDangling bolt json moved
save-NoDangling_example =
    save-NoDangling bolt bolt-BoltLaws json vm_id move stored moved stored-NoDangling moves

save-Handled_example : Handled bolt json vm_id move stored moved
save-Handled_example = save-Handled bolt bolt-BoltLaws json vm_id move stored moved moves

-- A pod that runs, and the same pod once it is stopped.
abbrev running_pod : PodSandboxInfo
running_pod = record {
  pod_id = codes "pod1";
  config = record {
    name = codes "pod";
    uid = codes "pod1";
    namespace = codes "default";
    attempt = 0;
    hostname = [];
    log_directory = [];
    dns_config = record { servers = []; searches = []; options = [] };
    port_mappings = [];
    labels = [];
    annotations = [];
    cgroup_parent = [];
  };
  created_at = 1;
  state = ready;
  container_side_network = none;
}

abbrev stopped_pod : PodSandboxInfo
stopped_pod = record running_pod { state = not_ready }

unfoldable PodSandboxInfo-discrete : Discrete PodSandboxInfo
PodSandboxInfo-discrete = hlevel (ℕ_discrete)

abbrev parse_pod : Str → Result PodSandboxInfo
parse_pod s = if str_eq s (1 ∷ []) then ok running_pod else ok stopped_pod

parse_pod-code_of :
    (p : PodSandboxInfo) (s : Str) (d : Dec (running_pod ≡ p)) (e : Dec (stopped_pod ≡ p))
    → code_of d e ≡ ok s
    → parse_pod s ≡ ok p
unfolding str_eq
parse_pod-code_of p s (yes first) e h = ap parse_pod (sym (ok_injective h)) ∙ ap ok first
parse_pod-code_of p s (no other) (yes second) h = ap parse_pod (sym (ok_injective h)) ∙ ap ok second
parse_pod-code_of p s (no other) (no neither) h = absurd (cc)

abbrev pods : Codec PodSandboxInfo
pods = record {
  marshal =
      λ p. code_of (PodSandboxInfo-discrete running_pod p) (PodSandboxInfo-discrete stopped_pod p);
  unmarshal = parse_pod;
  unmarshal-marshal = λ p s h. parse_pod-code_of p s _ _ h;
}

abbrev client : MetaStore
client = bolt_store bolt bolt-BoltLaws json (λ s l. true) pods

-- The pod is stored as running, and then as stopped.
abbrev with_pod_stored : Buckets
with_pod_stored = (save_sandbox bolt pods (codes "pod1") (λ old. ok (some running_pod)) empty).1

abbrev with_pod_stopped : Buckets
with_pod_stopped =
    (save_sandbox bolt pods (codes "pod1") (λ old. ok (some stopped_pod)) with_pod_stored).1

stored_running :
    (retrieve_sandbox bolt pods (codes "pod1") with_pod_stored).0 ≡ ok (some running_pod)
unfolding retrieve_sandbox save_sandbox save_sandbox_in store_sandbox update decode
    PodSandboxInfo-discrete ℕ_discrete ◌>>=◌ str_eq
stored_running = refl

stored_stopped :
    (retrieve_sandbox bolt pods (codes "pod1") with_pod_stopped).0 ≡ ok (some stopped_pod)
unfolding retrieve_sandbox save_sandbox save_sandbox_in store_sandbox update decode
    PodSandboxInfo-discrete ℕ_discrete ◌>>=◌ str_eq
stored_stopped = refl

bolt_store-StoreLaws_example : StoreLaws client
bolt_store-StoreLaws_example = bolt_store-StoreLaws bolt bolt-BoltLaws json (λ s l. true) pods

bolt_store-SandboxLaws_example : SandboxLaws client
bolt_store-SandboxLaws_example = bolt_store-SandboxLaws bolt bolt-BoltLaws json (λ s l. true) pods
