-- ===== src/Gc/Safety.antt =====
-- What the garbage collector keeps, and what it removes.
use virtlet.Prelude.{
  Str, codes, str_eq, str_eq_refl, str_eq→eq, has_prefix, has_prefix-append, Bool, true, false,
  Bool-cases, List, [], ◌∷◌, ◌++◌, ◌≡◌, refl, sym, ap, ◌∙◌, ◌≤◌, inl, inr, Elem, All, take, length,
  ltb, append_assoc, arith,
}
use virtlet.Result.{Result, ok, err, fault}
use virtlet.Prog.{◌>>=◌, attempt}
use virtlet.World.{World}
use virtlet.Tool.Create.{domain_name_of}
use virtlet.Gc.Names.{
  in_list, is_domain_of, is_root_volume_of, is_qcow2_volume_of, base, root_prefix, virtlet_prefix,
}
use virtlet.Gc.Collect.{orphan_domain, orphan_volume, error_of}

-- The filter gives an answer on every element.
abbrev Answers : List Str → (Str → Result Bool) → Type 0
Answers ids filter = All (λ id. (b : Bool) × (filter id ≡ ok b)) ids

in_list-Elem :
    (filter : Str → Result Bool) (ids : List Str) (id : Str)
    → Elem id ids
    → Answers ids filter
    → filter id ≡ ok true
    → in_list ids filter ≡ ok true
unfolding in_list
in_list-Elem filter [] id member answers passes = absurd member
in_list-Elem filter (j ∷ ids) id (inl same) ((b, answer), answers) passes =
    rw (ap filter same ∙ passes)
in_list-Elem filter (j ∷ ids) id (inr later) ((true, answer), answers) passes = rw answer
in_list-Elem filter (j ∷ ids) id (inr later) ((false, answer), answers) passes =
    rw answer (in_list-Elem filter ids id later answers passes)

-- An ID is long enough for id[:13].
abbrev pub HasShortId : Str → Type 0
HasShortId id = 13 ≤ length id

is_domain_of-Answers :
    (n : Str) (ids : List Str) → All HasShortId ids → Answers ids (is_domain_of n)
unfolding is_domain_of
is_domain_of-Answers n [] long = tt
is_domain_of-Answers n (id ∷ ids) (h, long) =
    ((has_prefix n (virtlet_prefix ++ take 13 id), ground arith), is_domain_of-Answers n ids long)

is_domain_of-named :
    (id name : Str) → HasShortId id → is_domain_of (domain_name_of (take 13 id) name) id ≡ ok true
unfolding is_domain_of domain_name_of
is_domain_of-named id name long =
    let longer : ltb (length id) 13 ≡ false = ground arith in
    rw longer (
      ap ok (
        ap (λ n. has_prefix n (virtlet_prefix ++ take 13 id))
          (sym (append_assoc virtlet_prefix (take 13 id) (codes "-" ++ name)))
        ∙ has_prefix-append (virtlet_prefix ++ take 13 id) (codes "-" ++ name)))

abbrev pub NoFault : {A : Type 0} → Result A → Type 0
NoFault (ok a) = Unit
NoFault (err e) = Unit
NoFault (fault f) = ⊥

append_cancel : (p s t : Str) → p ++ s ≡ p ++ t → s ≡ t
append_cancel [] s t h = h
append_cancel (c ∷ p) s t h = append_cancel p s t (cc)

no_root :
    (f : Str) (ids : List Str)
    → ¬ (Elem f ids)
    → in_list ids (is_root_volume_of (root_prefix ++ f)) ≡ ok false
unfolding in_list is_root_volume_of
no_root f [] out = refl
no_root f (id ∷ ids) out = elim (Bool-cases (str_eq (root_prefix ++ id) (root_prefix ++ f))) [
  | inl same ↦ absurd (out (inl (append_cancel root_prefix id f (str_eq→eq _ _ same))))
  | inr differs ↦ rw differs (no_root f ids (λ e. out (inr e)))
]

module _ (x : World) where
  open x use {W, Domain, PoolVolume}

  -- A domain that CreateContainer named, for a container whose ID is listed, is only asked for its
  -- name: the collector neither looks it up nor destroys nor undefines it, and reports no error.
  pub orphan_domain_keeps :
      (ids : List Str) (id name : Str) (d : Domain) (w w' : W)
      → Elem id ids
      → All HasShortId ids
      → HasShortId id
      → x.name d w ≡ (ok (domain_name_of (take 13 id) name), w')
      → orphan_domain x ids d w ≡ (ok [], w')
  unfolding orphan_domain ◌>>=◌ attempt error_of
  orphan_domain_keeps ids id name d w w' member long long' named =
      let kept =
        in_list-Elem (is_domain_of (domain_name_of (take 13 id) name)) ids id member
          (is_domain_of-Answers _ ids long) (is_domain_of-named id name long') in
      rw (named, kept)

  -- A domain of no listed container is looked up by its name, destroyed, and undefined whether or
  -- not it could be destroyed; the only error that can be reported is that of Undefine.
  pub orphan_domain_removes :
      (ids : List Str) (n : Str) (d d' : Domain) (w w1 w2 w3 w4 : W)
      (destroyed undefined : Result (Unit {0}))
      → in_list ids (is_domain_of n) ≡ ok false
      → x.name d w ≡ (ok n, w1)
      → x.lookup_domain_by_name n w1 ≡ (ok d', w2)
      → x.destroy d' w2 ≡ (destroyed, w3)
      → NoFault destroyed
      → x.undefine d' w3 ≡ (undefined, w4)
      → NoFault undefined
      → orphan_domain x ids d w ≡ (ok (error_of "cannot undefine domain" undefined), w4)
  unfolding orphan_domain ◌>>=◌ attempt error_of
  orphan_domain_removes ids n d d' w w1 w2 w3 w4 (ok a) (ok b) none named found gone h under h' =
      rw (named, none, found, gone, under)
  orphan_domain_removes ids n d d' w w1 w2 w3 w4 (ok a) (err b) none named found gone h under h' =
      rw (named, none, found, gone, under)
  orphan_domain_removes ids n d d' w w1 w2 w3 w4 (err a) (ok b) none named found gone h under h' =
      rw (named, none, found, gone, under)
  orphan_domain_removes ids n d d' w w1 w2 w3 w4 (err a) (err b) none named found gone h under h' =
      rw (named, none, found, gone, under)
  orphan_domain_removes ids n d d' w w1 w2 w3 w4 (fault a) b none named found gone h under h' =
      absurd h
  orphan_domain_removes ids n d d' w w1 w2 w3 w4 (ok a) (fault b) none named found gone h under h' =
      absurd h'
  orphan_domain_removes ids n d d' w w1 w2 w3 w4 (err a) (fault b) none named found gone h under
        h' =
      absurd h'

  not_qcow2 : (id : Str) → has_prefix (root_prefix ++ id) virtlet_prefix ≡ false
  unfolding has_prefix
  not_qcow2 id = refl

  root-Answers : (f : Str) (ids : List Str) → Answers ids (is_root_volume_of f)
  unfolding is_root_volume_of
  root-Answers f [] = tt
  root-Answers f (id ∷ ids) = ((str_eq (root_prefix ++ id) f, refl), root-Answers f ids)

  root_passes : (id : Str) → is_root_volume_of (root_prefix ++ id) id ≡ ok true
  unfolding is_root_volume_of
  root_passes id = ap ok (str_eq_refl (root_prefix ++ id))

  -- The root volume of a listed container is kept by both collectors that go through the pool: one
  -- knows its ID, and to the other it is no volume of its own.
  pub orphan_volume_keeps_root :
      (ids : List Str) (id p : Str) (v : PoolVolume) (w w' : W)
      → Elem id ids
      → x.path v w ≡ (ok p, w')
      → base p ≡ root_prefix ++ id
      → (orphan_volume x root_prefix is_root_volume_of ids v w ≡ (ok [], w'))
        × (orphan_volume x virtlet_prefix is_qcow2_volume_of ids v w ≡ (ok [], w'))
  unfolding orphan_volume ◌>>=◌ attempt error_of
  orphan_volume_keeps_root ids id p v w w' member located named = (
    rw (
      located,
      named,
      has_prefix-append root_prefix id,
      in_list-Elem (is_root_volume_of (root_prefix ++ id)) ids id member
          (root-Answers (root_prefix ++ id) ids) (root_passes id),
    ),
    rw (located, named, not_qcow2 id),
  )

  -- A root volume of no listed container is removed, and only the error of Remove is reported.
  pub orphan_volume_removes_root :
      (ids : List Str) (f p : Str) (v : PoolVolume) (w w1 w2 : W) (removed : Result (Unit {0}))
      → x.path v w ≡ (ok p, w1)
      → base p ≡ root_prefix ++ f
      → ¬ (Elem f ids)
      → x.remove v w1 ≡ (removed, w2)
      → NoFault removed
      → orphan_volume x root_prefix is_root_volume_of ids v w
        ≡ (ok (error_of "cannot remove volume with path" removed), w2)
  unfolding orphan_volume ◌>>=◌ attempt error_of
  orphan_volume_removes_root ids f p v w w1 w2 (ok a) located named out gone h =
      rw (located, named, has_prefix-append root_prefix f, no_root f ids out, gone)
  orphan_volume_removes_root ids f p v w w1 w2 (err a) located named out gone h =
      rw (located, named, has_prefix-append root_prefix f, no_root f ids out, gone)
  orphan_volume_removes_root ids f p v w w1 w2 (fault a) located named out gone h = absurd h
