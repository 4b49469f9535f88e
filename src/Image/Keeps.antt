-- ===== src/Image/Keeps.antt =====
-- Removing images and collecting unused data keep every link leading to its data.
use virtlet.Prelude.{
  Str, str_eq, Bool, Bool-cases, inl, inr, true, false, ◌≡◌, ◌⊎◌, refl, sym, ap, ◌∙◌, Option, none,
  some, List, [], ◌∷◌, arith,
}
use virtlet.Prelude.Dict.{Dict, lookup, erase, lookup-erase}
use virtlet.Result.{ok}
use virtlet.Prog.{pure, attempt, annotate, ◌>>=◌}
use virtlet.Prog.After.{>>=-after}
use virtlet.Image.Names.{References, link_file_name}
use virtlet.Image.Files.{
  Dest, base, Entry, Disk, Faults, lstat_link, readlink, remove_data, remove_link,
}
use virtlet.Image.Store.{in_names}
use virtlet.Image.Change.{
  Getter, get_image_hex_digests_in_use, remove_if_unreferenced, remove_image_if_its_not_needed,
  unless_kept, at_link, removal, remove_image, collect, gc,
}
use virtlet.Image.Listing.{IsReadable, in_use-reads}
use virtlet.Image.Sound.{IsSound, Covers, in_use-Covers, remove_data-IsSound}

module _ (refs : References) (f : Faults) (reads : IsReadable f) (getter : Getter refs f) where
  pub in_use-known :
      (d : Disk) (used : List Str)
      → IsSound refs d
      → get_image_hex_digests_in_use refs f getter d
        ≡ (ok used, (get_image_hex_digests_in_use refs f getter d).1)
      → Covers used d
  in_use-known d used sound e = (in_use-Covers refs f reads getter d _ used sound e).1

  pub remove_if_unreferenced-IsSound :
      (d : Disk) (hex : Str)
      → IsSound refs d
      → IsSound refs (remove_if_unreferenced refs f getter hex d).1
  unfolding remove_if_unreferenced
  remove_if_unreferenced-IsSound d hex sound =
      >>=-after (IsSound refs) _ (get_image_hex_digests_in_use refs f getter) d
        (rw (in_use-reads refs f getter d) sound)
        λ used e. rw (in_use-reads refs f getter d) (elim (Bool-cases (in_names hex used)) [
          | inl held ↦ rw held sound
          | inr free ↦
              rw free (
                remove_data-IsSound refs f reads d hex used sound (in_use-known d used sound e)
                  free)
        ])

  pub remove_link-after :
      (d : Disk) (link : Str)
      → ((remove_link f link d).1 ≡ d)
        ⊎ ((remove_link f link d).1 ≡ record d { links = erase link d.links })
  unfolding remove_link ◌>>=◌
  remove_link-after d link = ground arith

  pub erase-kept :
      (link l : Str) (links : Dict Entry) (e : Entry)
      → lookup l (erase link links) ≡ some e
      → lookup l links ≡ some e
  erase-kept link l links e here = ground (arith, lookup-erase link l links, here)

  remove_link-IsSound :
      (d : Disk) (link : Str) → IsSound refs d → IsSound refs (remove_link f link d).1
  remove_link-IsSound d link sound = elim (remove_link-after d link) [
    | inl same ↦ rw same sound
    | inr erased ↦ rw erased record {
      linked = λ l name here. sound.linked l name (erase-kept link l d.links _ here);
      dir = λ l e here. sound.dir l e (erase-kept link l d.links e here);
    }
  ]

  pub lstat_link-reads : (d : Disk) (link : Str) → (lstat_link f link d).1 ≡ d
  unfolding lstat_link ◌>>=◌
  lstat_link-reads d link = ground arith

  pub readlink-reads : (d : Disk) (link : Str) → (readlink f link d).1 ≡ d
  unfolding readlink ◌>>=◌
  readlink-reads d link = ground arith

  pub remove_image_if_its_not_needed-IsSound :
      (d : Disk) (name keep : Str)
      → IsSound refs d
      → IsSound refs (remove_image_if_its_not_needed refs f getter name keep d).1
  unfolding remove_image_if_its_not_needed annotate
  remove_image_if_its_not_needed-IsSound d name keep sound =
      >>=-after (IsSound refs) _ (annotate "can't stat" (lstat_link f (link_file_name refs name))) d
        (rw (lstat_link-reads d _) sound)
        λ found e. followed found (link_file_name refs name) _ (rw (lstat_link-reads d _) sound)
    where
      unlinked :
          (b : Bool) (link : Str) (dest : Dest) (t : Disk)
          → str_eq (base dest) keep ≡ b
          → IsSound refs t
          → IsSound refs (unless_kept refs f getter link keep dest t).1
      unlinked true link dest t e h = rw e h
      unlinked false link dest t e h = rw e (
          >>=-after (IsSound refs) _ (annotate "can't remove" (remove_link f link)) t
            (remove_link-IsSound t link h)
            λ u e1.
              >>=-after (IsSound refs) (λ _. pure true)
                (remove_if_unreferenced refs f getter (base dest)) _
                (remove_if_unreferenced-IsSound _ (base dest) (remove_link-IsSound t link h))
                λ v e2. remove_if_unreferenced-IsSound _ (base dest) (remove_link-IsSound t link h))

      followed :
          (found : Option Entry) (link : Str) (t : Disk)
          → IsSound refs t
          → IsSound refs (at_link refs f getter link keep found t).1
      followed none link t h = h
      followed (some entry) link t h =
          >>=-after (IsSound refs) _ (annotate "error reading link" (readlink f link)) t
            (rw (readlink-reads t _) h)
            λ dest e.
              unlinked (str_eq (base dest) keep) link dest _ refl (rw (readlink-reads t _) h)

  remove_data-links : (d : Disk) (hex : Str) → (remove_data f hex d).1.links ≡ d.links
  unfolding remove_data ◌>>=◌
  remove_data-links d hex = ground arith

  Held : List Str → Disk → Type 0
  Held used d = IsSound refs d × Covers used d

  collect-Held :
      (used : List Str) (files : Dict Str) (d : Disk)
      → Held used d
      → Held used (collect refs f used files d).1
  unfolding collect Held attempt
  collect-Held used [] d h = h
  collect-Held used ((name, content) ∷ files) d h =
      >>=-after (Held used) (λ _. collect refs f used files)
        (attempt (removal refs f name (in_names name used))) d
        (removal-Held (in_names name used) refl)
        λ r e. collect-Held used files _ (removal-Held (in_names name used) refl)
    where
      removal-Held :
          (b : Bool) → in_names name used ≡ b → Held used (attempt (removal refs f name b) d).1
      removal-Held true e = h
      removal-Held false e = (
        remove_data-IsSound refs f reads d name used h.0 h.1 e,
        λ link leads here.
            h.1 link leads (ap (lookup link) (sym (remove_data-links d name)) ∙ here),
      )

  -- Whatever cannot be removed, a collection keeps every link leading to its data, where links and
  -- files can be examined.
  pub gc-IsSound : (d : Disk) → IsSound refs d → IsSound refs (gc refs f getter d).1
  unfolding gc Held collect ◌>>=◌
  gc-IsSound d sound =
      >>=-after (IsSound refs) _ (get_image_hex_digests_in_use refs f getter) d
        (rw (in_use-reads refs f getter d) sound)
        λ used e.
          rw (in_use-reads refs f getter d)
            (collect-Held used d.data_files d (sound, in_use-known d used sound e)).0

  -- Whatever cannot be removed, removing an image keeps every other link leading to its data, where
  -- links and files can be examined.
  pub remove_image-IsSound :
      (d : Disk) (name : Str) → IsSound refs d → IsSound refs (remove_image refs f getter name d).1
  unfolding remove_image
  remove_image-IsSound d name sound =
      >>=-after (IsSound refs) (λ _. pure tt) (remove_image_if_its_not_needed refs f getter name [])
        d (remove_image_if_its_not_needed-IsSound d name [] sound)
        λ removed e. remove_image_if_its_not_needed-IsSound d name [] sound
