-- ===== src/Image/Collected.antt =====
-- What a collection removes, and what it keeps.
use mathlib.Core.Path.{subst}
use virtlet.Prelude.{
  Str, str_eq, str_eq→eq, str_eq_refl, Bool, inl, inr, true, false, not, ◌&&◌, ◌≡◌, refl, sym, ap,
  ◌∙◌, ◌⊎◌, Option, none, some, List, [], ◌∷◌, ◌++◌, Elem, if◌then◌else◌, arith,
}
use virtlet.Prelude.Dict.{Dict, lookup, lookup-erase}
use virtlet.Result.{Result, wrapped, ok, ok_injective}
use virtlet.Prog.{get_state, attempt, annotate, ◌>>=◌}
use virtlet.Prog.Laws.{ok->>=, stepping}
use virtlet.Prog.After.{>>=-after}
use virtlet.Image.Listing.{in_use-reads}
use virtlet.Image.Names.{Digest, References, Reference, get_hex_digest}
use virtlet.Image.Files.{data_path, Disk, Faults, remove_data}
use virtlet.Image.Store.{in_names, is_empty}
use virtlet.Image.Change.{
  Getter, referenced, hex_digests, digests_of, get_image_hex_digests_in_use, removal, collect, gc,
}

-- The string names an image by its digest: it is the digest, or else a reference with the digest.
abbrev pub Names : References → Str → Digest → Type 0
Names refs spec g =
    (refs.parse_digest spec ≡ some g)
    ⊎ ((refs.parse_digest spec ≡ none)
        × ((r : Reference) × (refs.parse spec ≡ some r) × (r.digest ≡ some g)))

get_hex_digest-Names :
    (refs : References) (spec : Str) (g : Digest)
    → Names refs spec g
    → g.sha256 ≡ true
    → get_hex_digest refs spec ≡ g.hex
unfolding get_hex_digest
get_hex_digest-Names refs spec g (inl bare) sha = ground (arith, bare, sha)
get_hex_digest-Names refs spec g (inr (no_digest, (r, parsed, has))) sha =
    ground (arith, no_digest, parsed, has, sha)

module _ (refs : References) (f : Faults) where
  -- No data file refuses to be removed.
  abbrev pub Removable : Type 0
  Removable = (name : Str) → f.remove (data_path name) ≡ none

  removed :
      (free : Removable) (d : Disk) (name : Str) (b : Bool) (n : Str)
      → lookup n (attempt (removal refs f name b) d).1.data_files
        ≡ (if str_eq name n && not b then none else lookup n d.data_files)
  unfolding attempt remove_data ◌>>=◌
  removed free d name true n = ground arith
  removed free d name false n =
      ground (arith, free name, lookup-erase name n d.data_files, str_eq→eq name n)

  collect-step :
      (used : List Str) (name content : Str) (files : Dict Str) (d : Disk)
      → collect refs f used ((name, content) ∷ files) d
        ≡ collect refs f used files (attempt (removal refs f name (in_names name used)) d).1
  unfolding collect attempt remove_data ◌>>=◌
  collect-step used name content files d = by_removal (in_names name used)
    where
      by_removal :
          (b : Bool)
          → (attempt (removal refs f name b) >>= λ _. collect refs f used files) d
            ≡ collect refs f used files (attempt (removal refs f name b) d).1
      by_removal true = refl
      by_removal false = ground arith

  -- What is listed and not in use is gone, and the rest stays.
  collected :
      (free : Removable) (used : List Str) (files : Dict Str) (d : Disk) (n : Str)
      → lookup n (collect refs f used files d).1.data_files ≡ (
          if in_names n used
          then lookup n d.data_files
          else elim (lookup n files) [ none ↦ lookup n d.data_files | some c ↦ none ])
  unfolding lookup collect
  collected free used [] d n = ground arith
  collected free used ((name, content) ∷ files) d n = ground (
    arith,
    collect-step used name content files d,
    collected free used files (attempt (removal refs f name (in_names name used)) d).1 n,
    removed free d name (in_names name used) n,
    str_eq→eq name n,
  )

  collect-ok :
      (used : List Str) (files : Dict Str) (d : Disk) → (collect refs f used files d).0 ≡ ok tt
  unfolding collect
  collect-ok used [] d = refl
  collect-ok used ((name, content) ∷ files) d =
      ap (λ (p : Result (Unit {0}) × Disk). p.0) (collect-step used name content files d)
      ∙ collect-ok used files (attempt (removal refs f name (in_names name used)) d).1

  spared :
      (d : Disk) (name : Str) (b : Bool) (n : Str)
      → (str_eq name n && not b) ≡ false
      → lookup n (attempt (removal refs f name b) d).1.data_files ≡ lookup n d.data_files
  unfolding attempt remove_data ◌>>=◌
  spared d name true n h = refl
  spared d name false n h = ground (arith, lookup-erase name n d.data_files, h)

  -- What is in use stays, whatever goes wrong.
  collect-keeps :
      (used : List Str) (files : Dict Str) (d : Disk) (n : Str)
      → in_names n used ≡ true
      → lookup n (collect refs f used files d).1.data_files ≡ lookup n d.data_files
  unfolding collect
  collect-keeps used [] d n h = refl
  collect-keeps used ((name, content) ∷ files) d n h =
      ap (λ (p : Result (Unit {0}) × Disk). lookup n p.1.data_files)
        (collect-step used name content files d)
      ∙ collect-keeps used files (attempt (removal refs f name (in_names name used)) d).1 n h
      ∙ spared d name (in_names name used) n (ground (arith, h, str_eq→eq name n, same_use))
    where
      same_use : str_eq name n ≡ true → in_names name used ≡ in_names n used
      same_use e = ap (λ (m : Str). in_names m used) (str_eq→eq name n e)

  module _ (getter : Getter refs f) where
    -- Where the names in use are known and files can be removed, a collection succeeds and leaves
    -- exactly the data files that are in use.
    pub gc-collects :
        (d : Disk) (used : List Str) (n : Str)
        → get_image_hex_digests_in_use refs f getter d ≡ (ok used, d)
        → Removable
        → ((gc refs f getter d).0 ≡ ok tt)
          × (lookup n (gc refs f getter d).1.data_files
              ≡ (if in_names n used then lookup n d.data_files else none))
    unfolding gc
    gc-collects d used n known free =
        let run : gc refs f getter d ≡ collect refs f used d.data_files d =
          ok->>= (get_image_hex_digests_in_use refs f getter) _ d d used known
          ∙ ok->>= get_state (λ s. collect refs f used s.data_files) d d d refl in
        (
          ap (λ (p : Result (Unit {0}) × Disk). p.0) run ∙ collect-ok used d.data_files d,
          ap (λ (p : Result (Unit {0}) × Disk). lookup n p.1.data_files) run
              ∙ collected free used d.data_files d n
              ∙ either (in_names n used) (lookup n d.data_files),
        )
      where
        either :
            (b : Bool) (o : Option Str)
            → (if b then o else elim o as (λ _. Option Str) [ none ↦ o | some c ↦ none ])
              ≡ (if b then o else none)
        either b o = ground arith

    in_names-append-left :
        (x : Str) (xs ys : List Str) → in_names x xs ≡ true → in_names x (xs ++ ys) ≡ true
    in_names-append-left x [] ys h = absurd (cc)
    in_names-append-left x (y ∷ xs) ys h = ground (arith, in_names-append-left x xs ys)

    hex_digests-head :
        (specs : List (Str × Bool)) (spec : Str)
        → is_empty (get_hex_digest refs spec) ≡ false
        → in_names (get_hex_digest refs spec) (hex_digests refs f ((spec, true) ∷ specs)) ≡ true
    unfolding hex_digests
    hex_digests-head specs spec given =
        ground (arith, given, str_eq_refl (get_hex_digest refs spec))

    hex_digests-all :
        (specs : List (Str × Bool)) (spec : Str)
        → Elem (spec, true) specs
        → is_empty (get_hex_digest refs spec) ≡ false
        → in_names (get_hex_digest refs spec) (hex_digests refs f specs) ≡ true
    unfolding hex_digests
    hex_digests-all [] spec here given = absurd here
    hex_digests-all ((other, present) ∷ specs) spec (inl same) given =
        ap
          (λ (p : Str × Bool). in_names (get_hex_digest refs spec) (hex_digests refs f (p ∷ specs)))
          same
        ∙ hex_digests-head specs spec given
    hex_digests-all ((other, present) ∷ specs) spec (inr later) given =
        ground (arith, hex_digests-all specs spec later given)

    in_use-referenced :
        (d t : Disk) (used : List Str) (specs : List (Str × Bool)) (spec : Str)
        → getter ≡ some (ok specs)
        → Elem (spec, true) specs
        → is_empty (get_hex_digest refs spec) ≡ false
        → get_image_hex_digests_in_use refs f getter d ≡ (ok used, t)
        → in_names (get_hex_digest refs spec) used ≡ true
    unfolding get_image_hex_digests_in_use annotate
    in_use-referenced d t used specs spec known here given h = stepping _ _ h λ found s e rest.
        stepping _ _ rest λ images u listed last.
          let same : ok specs ≡ ok found =
            sym (
              ap
                (λ (g : Getter refs f). wrapped "error listing images in use" (referenced refs f g))
                known)
            ∙ (λ i. (e i).0) in
          let both : hex_digests refs f found ++ digests_of refs f images ≡ used =
            ok_injective (λ i. (last i).0) in
          ap (in_names (get_hex_digest refs spec)) (sym both)
          ∙ in_names-append-left (get_hex_digest refs spec) (hex_digests refs f found) _ (
              ap
                (λ (l : List (Str × Bool)).
                  in_names (get_hex_digest refs spec) (hex_digests refs f l))
                (sym (ok_injective same))
              ∙ hex_digests-all specs spec here given)

    -- A collection keeps the data of every image that the reference getter names by a SHA256
    -- digest, be it alone or in a reference, whether or not the image is tagged, and whatever goes
    -- wrong.
    pub gc_keeps_referenced :
        (d : Disk) (specs : List (Str × Bool)) (spec : Str) (g : Digest)
        → getter ≡ some (ok specs)
        → Elem (spec, true) specs
        → Names refs spec g
        → g.sha256 ≡ true
        → is_empty g.hex ≡ false
        → lookup g.hex (gc refs f getter d).1.data_files ≡ lookup g.hex d.data_files
    unfolding gc ◌>>=◌
    gc_keeps_referenced d specs spec g known here names sha given =
        let is : get_hex_digest refs spec ≡ g.hex = get_hex_digest-Names refs spec g names sha in
        let n : Str = get_hex_digest refs spec in
        let kept : lookup n (gc refs f getter d).1.data_files ≡ lookup n d.data_files =
          >>=-after (λ (t : Disk). lookup n t.data_files ≡ lookup n d.data_files) _
            (get_image_hex_digests_in_use refs f getter) d
            (ap (λ (t : Disk). lookup n t.data_files) (in_use-reads refs f getter d))
            λ used e.
              collect-keeps used (get_image_hex_digests_in_use refs f getter d).1.data_files
                (get_image_hex_digests_in_use refs f getter d).1 n
                (in_use-referenced d _ used specs spec known here (ap is_empty is ∙ given) e)
              ∙ ap (λ (t : Disk). lookup n t.data_files) (in_use-reads refs f getter d) in
        subst (λ (k : Str). lookup k (gc refs f getter d).1.data_files ≡ lookup k d.data_files) is
          kept
