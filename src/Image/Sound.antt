-- ===== src/Image/Sound.antt =====
-- Links that lead to data, and that what is linked counts as used.
use virtlet.Prelude.{
  Str, str_eq, str_eq→eq, Bool-cases, inl, inr, true, false, not, ◌≡◌, ◌⊎◌, sym, ap, ◌∙◌, some,
  List, [], ◌∷◌, ◌++◌, arith,
}
use virtlet.Prelude.Dict.{lookup, erase, lookup-erase}
use virtlet.Result.{ok, ok_injective}
use virtlet.Prog.{annotate, ◌>>=◌}
use virtlet.Prog.Laws.{stepping}
use virtlet.Image.Names.{References}
use virtlet.Image.Files.{to_data, Entry, symlink, Disk, Faults, remove_data}
use virtlet.Image.Store.{Image, list_images, in_names}
use virtlet.Image.Change.{digests_of, hex_digests, Getter, get_image_hex_digests_in_use}
use virtlet.Image.Listing.{IsReadable, kept-lists, list_images-all}

-- Every link into the data directory leads to a file there that is named by a digest.
pub record IsSound (refs : References) (d : Disk) : Type 0 where
  pub linked :
      (link name : Str)
      → lookup link d.links ≡ some (symlink (to_data name))
      → (content : Str) × (lookup name d.data_files ≡ some content)
        × (refs.is_valid (record { sha256 = true; hex = name }) ≡ true)
  pub dir : (link : Str) (e : Entry) → lookup link d.links ≡ some e → d.has_link_dir ≡ true

-- Whatever a link leads to is among the names.
abbrev pub Covers : List Str → Disk → Type 0
Covers used d =
    (link name : Str)
    → lookup link d.links ≡ some (symlink (to_data name))
    → in_names name used ≡ true

in_names-append : (x : Str) (xs ys : List Str) → in_names x ys ≡ true → in_names x (xs ++ ys) ≡ true
in_names-append x [] ys h = h
in_names-append x (y ∷ xs) ys h = ground (arith, in_names-append x xs ys h)

module _ (refs : References) (f : Faults) (reads : IsReadable f) where
  listed-Covers :
      (d t : Disk) (images : List Image)
      → IsSound refs d
      → list_images refs f [] d ≡ (ok images, t)
      → Covers (digests_of refs f images) d
  listed-Covers d t images sound h link name here =
      let (content, stored, valid) = sound.linked link name here in
      elim (list_images-all refs f d t images h).1 [
        | inl without ↦ absurd (no_dir (sound.dir link _ here) without)
        | inr all ↦
            rw all (kept-lists refs f d d.links link name content reads here here stored valid)
      ]
    where
      no_dir : d.has_link_dir ≡ true → not d.has_link_dir ≡ true → ⊥
      no_dir made missing = ground arith

  pub in_use-Covers :
      (getter : Getter refs f) (d t : Disk) (used : List Str)
      → IsSound refs d
      → get_image_hex_digests_in_use refs f getter d ≡ (ok used, t)
      → (t ≡ d) × Covers used d
  unfolding get_image_hex_digests_in_use annotate
  in_use-Covers getter d t used sound h = stepping _ _ h λ specs s e rest.
      stepping _ _ rest λ images u listed last.
        let same : d ≡ s = λ i. (e i).1 in
        let here : list_images refs f [] d ≡ (ok images, u) =
          ap (list_images refs f []) same ∙ listed in
        let both : hex_digests refs f specs ++ digests_of refs f images ≡ used =
          ok_injective (λ i. (last i).0) in
        (
          sym (λ i. (last i).1) ∙ (list_images-all refs f d u images here).0,
          λ link name leads.
              ap (in_names name) (sym both)
              ∙ in_names-append name (hex_digests refs f specs) _
                  (listed-Covers d u images sound here link name leads),
        )

  -- What nothing leads to can be removed.
  pub remove_untied-IsSound :
      (d : Disk) (hex : Str)
      → IsSound refs d
      → ((l : Str) → lookup l d.links ≡ some (symlink (to_data hex)) → ⊥)
      → IsSound refs (remove_data f hex d).1
  unfolding remove_data ◌>>=◌
  remove_untied-IsSound d hex sound untied = elim (remove_data-after d) [
    | inl same ↦ rw same sound
    | inr erased ↦ rw erased record {
      linked = λ link name here.
          let (content, stored, valid) = sound.linked link name here in
          (content, lookup-erase hex name d.data_files ∙ rw (other link name here) stored, valid);
      dir = sound.dir;
    }
  ]
    where
      remove_data-after :
          (d : Disk)
          → ((remove_data f hex d).1 ≡ d)
            ⊎ ((remove_data f hex d).1 ≡ record d { data_files = erase hex d.data_files })
      remove_data-after d = ground arith

      other :
          (link name : Str)
          → lookup link d.links ≡ some (symlink (to_data name))
          → str_eq hex name ≡ false
      other link name here = elim (Bool-cases (str_eq hex name)) [
        | inr differs ↦ differs
        | inl same ↦ absurd (
            untied link
              (here ∙ ap (λ (n : Str). some (symlink (to_data n))) (sym (str_eq→eq hex name same))))
      ]

  pub remove_data-IsSound :
      (d : Disk) (hex : Str) (used : List Str)
      → IsSound refs d
      → Covers used d
      → in_names hex used ≡ false
      → IsSound refs (remove_data f hex d).1
  remove_data-IsSound d hex used sound covers free =
      remove_untied-IsSound d hex sound λ l here. clash (covers l hex here)
    where
      clash : in_names hex used ≡ true → ⊥
      clash held = ground (arith, free)
