-- ===== src/Tests/Cabin.antt =====
-- A store of pods and a descriptor manager for the tests: functions from IDs.
use virtlet.Prelude.{
  Str, codes, str_eq, str_eq_refl, str_eq→eq, Bool, Bool-cases, true, false, Option, none, [], ◌≡◌,
  ◌≢◌, refl, sym, ap, ◌∙◌, inl, inr, if◌then◌else◌, arith,
}
use virtlet.Result.{Result, ok, err, errorf, fault, succeeded}
use virtlet.Types.{PodSandboxInfo}
use virtlet.MetaStore.{MetaStore, SandboxLaws, Updater, with_pod}
use virtlet.Runtime.Host.{Services}
use virtlet.Runtime.Wired.{FdLaws}

abbrev pub Cabin : Type 0
Cabin = Str → Option PodSandboxInfo

abbrev kept_pod : Cabin → Str → Result (Option PodSandboxInfo) → Result (Unit {0}) × Cabin
kept_pod s id (ok new) = (ok tt, λ j. if str_eq id j then new else s j)
kept_pod s id (err e) = (err e, s)
kept_pod s id (fault f) = (fault f, s)

abbrev pub cabin : MetaStore
cabin = record {
  St = Cabin;
  retrieve = λ id s. (ok none, s);
  save = λ id f s. (ok tt, s);
  retrieve_sandbox = λ id s. (ok (with_pod id (s id)), s);
  save_sandbox = λ id f s. kept_pod s id (f (s id));
  list_pod_containers = λ p s. (ok [], s);
  list_pod_sandboxes = λ f s. (ok [], s);
}

cabin_saved :
    (id : Str) (f : Updater PodSandboxInfo) (s s' : Cabin) (r : Result (Option PodSandboxInfo))
    → f (s id) ≡ r
    → kept_pod s id r ≡ (ok tt, s')
    → (new : Option PodSandboxInfo) × (f (s id) ≡ ok new) × (s' id ≡ new)
cabin_saved id f s s' (ok new) e h =
    (new, e, sym (λ i. (h i).1 id) ∙ ap (λ (t : Bool). if t then new else s id) (str_eq_refl id))
cabin_saved id f s s' (err x) e h = let k : err x ≡ ok tt = λ i. (h i).0 in absurd (cc)
cabin_saved id f s s' (fault x) e h = let k : fault x ≡ ok tt = λ i. (h i).0 in absurd (cc)

cabin_kept :
    (id j : Str) (s s' : Cabin) (r : Result (Option PodSandboxInfo))
    → kept_pod s id r ≡ (ok tt, s')
    → id ≢ j
    → s' j ≡ s j
cabin_kept id j s s' (ok new) h ne = elim (Bool-cases (str_eq id j)) [
  | inl same ↦ absurd (ne (str_eq→eq id j same))
  | inr apart ↦ sym (λ i. (h i).1 j) ∙ ap (λ (t : Bool). if t then new else s j) apart
]
cabin_kept id j s s' (err x) h ne = let k : err x ≡ ok tt = λ i. (h i).0 in absurd (cc)
cabin_kept id j s s' (fault x) h ne = let k : fault x ≡ ok tt = λ i. (h i).0 in absurd (cc)

cabin_rolled_back :
    (id : Str) (s s' : Cabin) (q : Result (Unit {0})) (r : Result (Option PodSandboxInfo))
    → kept_pod s id r ≡ (q, s')
    → succeeded q ≡ false
    → s' ≡ s
cabin_rolled_back id s s' q (ok new) h failed =
    let clash : true ≡ false = (λ i. succeeded (h i).0) ∙ failed in absurd (cc)
cabin_rolled_back id s s' q (err x) h failed = sym (λ i. (h i).1)
cabin_rolled_back id s s' q (fault x) h failed = sym (λ i. (h i).1)

pub cabin-SandboxLaws : SandboxLaws cabin
cabin-SandboxLaws = record {
  pure_retrieve_sandbox = λ id s. refl;
  saved_sandbox = λ id f s s' h.
      let (new, gave, is) = cabin_saved id f s s' (f (s id)) refl h in
      (s id, new, refl, gave, ap (with_pod id) is);
  kept_sandbox = λ id j f s s' h ne. ap (with_pod j) (cabin_kept id j s s' (f (s id)) h ne);
  rolled_back_sandbox = λ id f s s' r h. cabin_rolled_back id s s' r (f (s id)) h;
}

-- A set of keys. AddFDs fails for a key that is held, and for the pod "bad" after taking its key.
abbrev pub Keys : Type 0
Keys = Str → Bool

abbrev pub with_key : Str → Bool → Keys → Keys
with_key k b e = λ j. if str_eq k j then b else e j

abbrev add_key : Str → Keys → Bool → Bool → Result Str × Keys
add_key k e true bad = (err (errorf "fd key already exists"), e)
add_key k e false true = (err (errorf "error from CNI"), with_key k true e)
add_key k e false false = (ok (codes "net"), with_key k true e)

abbrev pub keys : {St : Type 0} → Services St
keys = record {
  E = Keys;
  add_fds = λ k d e. add_key k e (e k) (str_eq k (codes "bad"));
  release_fds = λ k e. (ok tt, with_key k false e);
  gc = λ s e. (ok tt, e);
  get_attach = λ r e. (ok [], e);
  mountpoint = λ e. (ok [], e);
}

abbrev pub Held : Str → Keys → Type 0
Held k e = e k ≡ true

add_key-Held :
    (k : Str) (e e' : Keys) (bytes : Str) (held bad : Bool)
    → add_key k e held bad ≡ (ok bytes, e')
    → Held k e'
add_key-Held k e e' bytes true bad h =
    let c : err (errorf "fd key already exists") ≡ ok bytes = λ i. (h i).0 in absurd (cc)
add_key-Held k e e' bytes false true h =
    let c : err (errorf "error from CNI") ≡ ok bytes = λ i. (h i).0 in absurd (cc)
add_key-Held k e e' bytes false false h =
    sym (λ i. (h i).1 k) ∙ ap (λ (b : Bool). if b then true else e k) (str_eq_refl k)

add_key_keeps :
    (k j : Str) (e : Keys) (held bad : Bool) → Held j e → Held j (add_key k e held bad).1
add_key_keeps k j e true bad h = h
add_key_keeps k j e false true h = ground arith
add_key_keeps k j e false false h = ground arith

release_keeps : (k j : Str) (e : Keys) → k ≢ j → Held j e → Held j (with_key k false e)
release_keeps k j e ne h = elim (Bool-cases (str_eq k j)) [
  | inl same ↦ absurd (ne (str_eq→eq k j same))
  | inr apart ↦ rw apart h
]

pub keys-FdLaws : {St : Type 0} → FdLaws (keys {St = St}) Held
keys-FdLaws = record {
  add_holds = λ k d e e' bytes h. add_key-Held k e e' bytes (e k) (str_eq k (codes "bad")) h;
  add_keeps = λ k j d e h. add_key_keeps k j e (e k) (str_eq k (codes "bad")) h;
  release_keeps = release_keeps;
}
