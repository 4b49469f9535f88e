-- ===== src/Image/Found.antt =====
-- The data that is found for a digest.
use virtlet.Prelude.{
  ℕ, Str, str_eq→eq, Bool-cases, inl, inr, true, false, ◌≡◌, ◌⊎◌, refl, sym, ap, ◌∙◌, Option, none,
  some, if◌then◌else◌, arith,
}
use virtlet.Result.{Result, ok, err, fault, errorf, ok_injective}
use virtlet.Prog.{Prog, pure, raise, lift, ◌>>◌}
use virtlet.Prog.Laws.{stepping, annotate-eq-ok}
use virtlet.Image.Names.{References, Reference, Digest}
use virtlet.Image.Files.{Dest, to_data, elsewhere, base, joined, FilePath, data_path, Disk, Faults}
use virtlet.Image.Pull.{
  Found, sha256_only, named, same_file, through_found, through_link, through_name,
  find_by_reference, find_image, choose_path, get_image_path_digest_and_virtual_size,
}

module _ (refs : References) (f : Faults) (vsize : FilePath → Result ℕ) (dg : Digest) where
  -- What the name has found goes with the digest that is returned.
  abbrev pub Goes : Option FilePath → Option Digest → Type 0
  Goes none e = e ≡ some dg
  Goes (some p) e =
      (dest : Dest) × (p ≡ joined dest) × (e ≡ some (record { sha256 = true; hex = base dest }))

  abbrev pub Asked : Found refs f vsize → Type 0
  Asked found = (found.via_digest ≡ some (data_path dg.hex)) × Goes found.via_name found.digest

  through_link-Asked :
      (name : Str) (d t : Disk) (found : Found refs f vsize)
      → through_link refs f vsize (some (data_path dg.hex)) (some dg) name d ≡ (ok found, t)
      → Asked found
  through_link-Asked name d t found h = stepping _ _ h λ r s e rest. by_link r s rest
    where
      by_link :
          (r : Result Dest) (s : Disk)
          → through_found refs f vsize (some (data_path dg.hex)) (some dg) r s ≡ (ok found, t)
          → Asked found
      by_link (ok dest) s e = rw (← ok_injective (λ i. (e i).0)) (refl, (dest, refl, refl))
      by_link (err x) s e = rw (← ok_injective (λ i. (e i).0)) (refl, refl)
      by_link (fault x) s e = absurd (cc)

  through_name-Asked :
      (name : Option Str) (d t : Disk) (found : Found refs f vsize)
      → through_name refs f vsize (some (data_path dg.hex)) (some dg) name d ≡ (ok found, t)
      → Asked found
  through_name-Asked none d t found h = rw (← ok_injective (λ i. (h i).0)) (refl, refl)
  through_name-Asked (some name) d t found h = through_link-Asked name d t found h

  sha256_only-ok :
      (d t : Disk) (u : Unit {0}) → sha256_only refs f vsize dg d ≡ (ok u, t) → dg.sha256 ≡ true
  sha256_only-ok d t u h = ground (arith, h)

  -- The digest that a reference asks for: the whole of it, or the one that it ends with.
  abbrev pub digest_asked : Str → Option Digest
  digest_asked ref = elim (refs.parse_digest ref) [
    | some d ↦ some d
    | none ↦ elim (refs.parse ref) [ none ↦ none | some r ↦ r.digest ]
  ]

  abbrev by_digest : Prog Disk (Found refs f vsize)
  by_digest =
      sha256_only refs f vsize dg
      >> pure record { via_digest = some (data_path dg.hex); via_name = none; digest = some dg }

  abbrev by_both : Reference → Prog Disk (Found refs f vsize)
  by_both r =
      sha256_only refs f vsize dg
      >> through_name refs f vsize (some (data_path dg.hex)) (some dg) (named refs f vsize r.name)

  find_image-cases :
      (ref : Str) (d : Disk)
      → digest_asked ref ≡ some dg
      → (find_image refs f vsize ref d ≡ by_digest d)
        ⊎ ((r : Reference) × (find_image refs f vsize ref d ≡ by_both r d))
  unfolding find_image find_by_reference
  find_image-cases ref d asked = by_parts (refs.parse_digest ref) (refs.parse ref) refl refl
    where
      by_parts :
          (whole : Option Digest) (parsed : Option Reference)
          → refs.parse_digest ref ≡ whole
          → refs.parse ref ≡ parsed
          → (find_image refs f vsize ref d ≡ by_digest d)
            ⊎ ((r : Reference) × (find_image refs f vsize ref d ≡ by_both r d))
      by_parts (some x) parsed e1 e2 =
          let same : some x ≡ some dg = ground (arith, e1, asked) in
          inl (rw (find_image, e1 ∙ same))
      by_parts none (some r) e1 e2 =
          let given : r.digest ≡ some dg = ground (arith, e1, e2, asked) in
          inr (r, rw (find_image, e1, e2, find_by_reference, given))
      by_parts none none e1 e2 = absurd (ground (arith, e1, e2, asked))

  find_image-Asked :
      (ref : Str) (d t : Disk) (found : Found refs f vsize)
      → digest_asked ref ≡ some dg
      → find_image refs f vsize ref d ≡ (ok found, t)
      → (dg.sha256 ≡ true) × Asked found
  find_image-Asked ref d t found asked h = elim (find_image-cases ref d asked) [
    | inl e ↦ stepping _ _ (sym e ∙ h) λ u s first rest.
        (sha256_only-ok d s u first, rw (← ok_injective (λ i. (rest i).0)) (refl, refl))
    | inr (r, e) ↦
        stepping _ _ (sym e ∙ h)
          λ u s first rest. (sha256_only-ok d s u first, through_name-Asked _ s t found rest)
  ]

  hex_found :
      (dest : Dest)
      → same_file refs f vsize (joined dest) (data_path dg.hex) ≡ true
      → base dest ≡ dg.hex
  hex_found (to_data name) h = str_eq→eq name dg.hex h
  hex_found (elsewhere name exists) h = absurd (cc)

  chosen :
      (vn : Option FilePath) (e : Option Digest) (d t : Disk) (p : FilePath)
      → dg.sha256 ≡ true
      → Goes vn e
      → choose_path refs f vsize
          (record { via_digest = some (data_path dg.hex); via_name = vn; digest = e })
          d
        ≡ (ok p, t)
      → (p ≡ data_path dg.hex) × (e ≡ some dg)
  unfolding choose_path
  chosen none e d t p sha goes h = (sym (ok_injective (λ i. (h i).0)), goes)
  chosen (some q) e d t p sha (dest, leads, given) h = stepping _ _ h λ u s2 first last.
      elim (Bool-cases (same_file refs f vsize q (data_path dg.hex))) [
        | inl same ↦
            (let hex : base dest ≡ dg.hex = hex_found dest (
                ap (λ (x : FilePath). same_file refs f vsize x (data_path dg.hex)) (sym leads)
                ∙ same) in
              (
                agreed same s2 last,
                given ∙ (λ i. some (record { sha256 = sym sha i; hex = hex i })),
              ))
        | inr other ↦ absurd (refused other s2 last)
      ]
    where
      agreed :
          same_file refs f vsize q (data_path dg.hex) ≡ true
          → (s2 : Disk)
          → (if same_file refs f vsize q (data_path dg.hex)
                then pure (data_path dg.hex)
                else raise (errorf "digest / name path mismatch"))
              s2
            ≡ (ok p, t)
          → p ≡ data_path dg.hex
      agreed same s2 last = ground (arith, same, last)

      refused :
          same_file refs f vsize q (data_path dg.hex) ≡ false
          → (s2 : Disk)
          → (if same_file refs f vsize q (data_path dg.hex)
                then pure (data_path dg.hex)
                else raise (errorf "digest / name path mismatch"))
              s2
            ≡ (ok p, t)
          → ⊥
      refused other s2 last = ground (arith, other, last)

  -- An image that is asked for by its digest, with or without a name, is the data file of this
  -- digest or an error: the digest is a SHA256 one and is returned, and the size is this file's.
  pub get_image_path_digest_and_virtual_size-asked :
      (ref : Str) (d t : Disk) {p : FilePath} {e : Option Digest} {size : ℕ}
      → digest_asked ref ≡ some dg
      → get_image_path_digest_and_virtual_size refs f vsize ref d ≡ (ok (p, e, size), t)
      → (dg.sha256 ≡ true) × (p ≡ data_path dg.hex) × (e ≡ some dg) × (vsize p ≡ ok size)
  unfolding get_image_path_digest_and_virtual_size
  get_image_path_digest_and_virtual_size-asked ref d t asked h = stepping _ _ h λ found s1 e1 rest.
      stepping _ _ rest λ path s2 e2 rest2. stepping _ _ rest2 λ n s3 e3 last.
        let (sha, (via, goes)) = find_image-Asked ref d s1 found asked e1 in
        let (right, given) = chosen found.via_name found.digest s1 s2 path sha goes (
          (λ i.
            choose_path refs f vsize
              (record { via_digest = sym via i; via_name = found.via_name; digest = found.digest })
              s1)
          ∙ e2) in
        let triple = ok_injective (λ i. (last i).0) in
        let sized : vsize path ≡ ok n =
          λ i. (annotate-eq-ok "error getting image size" (lift (vsize path)) s2 e3 i).0 in
        (
          sha,
          sym (λ i. (triple i).0) ∙ right,
          sym (λ i. (triple i).1) ∙ given,
          ap vsize (sym (λ i. (triple i).0)) ∙ sized ∙ ap ok (λ i. (triple i).2),
        )
