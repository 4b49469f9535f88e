-- ===== src/Image/Shrinks.antt =====
-- Removing the link of an image takes away no link besides, and none of the data it is told to keep.
use virtlet.Prelude.{
  Str, str_eq, Bool, Bool-cases, inl, inr, true, false, ◌≡◌, refl, sym, ap, ◌∙◌, Option, none, some,
  arith,
}
use virtlet.Prelude.Dict.{lookup, lookup-erase}
use virtlet.Prog.{pure, annotate, ◌>>=◌}
use virtlet.Prog.After.{>>=-after}
use virtlet.Image.Names.{References, link_file_name}
use virtlet.Image.Files.{
  Dest, base, Entry, Disk, Faults, lstat_link, readlink, remove_data, remove_link,
}
use virtlet.Image.Store.{in_names}
use virtlet.Image.Change.{
  Getter, get_image_hex_digests_in_use, remove_if_unreferenced, unless_kept, at_link,
  remove_image_if_its_not_needed,
}
use virtlet.Image.Listing.{IsReadable, in_use-reads}
use virtlet.Image.Keeps.{lstat_link-reads, readlink-reads, remove_link-after, erase-kept}

module _ (refs : References) (f : Faults) (reads : IsReadable f) (getter : Getter refs f) (d : Disk)
    (n : Str) where
  -- No link is new, and the link directory and the file `n` are as in `d`.
  abbrev pub Shrinks : Disk → Type 0
  Shrinks t =
      ((l : Str) (e : Entry) → lookup l t.links ≡ some e → lookup l d.links ≡ some e)
      × (lookup n t.data_files ≡ lookup n d.data_files)
      × (t.has_link_dir ≡ d.has_link_dir)

  remove_data-Shrinks :
      (t : Disk) (hex : Str) → str_eq hex n ≡ false → Shrinks t → Shrinks (remove_data f hex t).1
  unfolding remove_data ◌>>=◌
  remove_data-Shrinks t hex other h =
      ((λ l e here. h.0 l e (ap (lookup l) (sym links) ∙ here)), kept ∙ h.1, made ∙ h.2)
    where
      made : (remove_data f hex t).1.has_link_dir ≡ t.has_link_dir
      made = ground arith

      links : (remove_data f hex t).1.links ≡ t.links
      links = ground arith

      kept : lookup n (remove_data f hex t).1.data_files ≡ lookup n t.data_files
      kept = ground (arith, lookup-erase hex n t.data_files, other)

  remove_if_unreferenced-Shrinks :
      (t : Disk) (hex : Str)
      → str_eq hex n ≡ false
      → Shrinks t
      → Shrinks (remove_if_unreferenced refs f getter hex t).1
  unfolding remove_if_unreferenced
  remove_if_unreferenced-Shrinks t hex other h =
      >>=-after Shrinks _ (get_image_hex_digests_in_use refs f getter) t
        (rw (in_use-reads refs f getter t) h)
        λ used e. rw (in_use-reads refs f getter t) (elim (Bool-cases (in_names hex used)) [
          | inl held ↦ rw held h
          | inr free ↦ rw free (remove_data-Shrinks t hex other h)
        ])

  remove_link-Shrinks : (t : Disk) (link : Str) → Shrinks t → Shrinks (remove_link f link t).1
  remove_link-Shrinks t link h = elim (remove_link-after refs f reads getter t link) [
    | inl same ↦ rw same h
    | inr erased ↦
        rw erased
          ((λ l e here. h.0 l e (erase-kept refs f reads getter link l t.links e here)), h.1, h.2)
  ]

  unless_kept-Shrinks :
      (b : Bool) (link : Str) (dest : Dest) (t : Disk)
      → str_eq (base dest) n ≡ b
      → Shrinks t
      → Shrinks (unless_kept refs f getter link n dest t).1
  unfolding annotate
  unless_kept-Shrinks true link dest t e h = rw e h
  unless_kept-Shrinks false link dest t e h = rw e (
      >>=-after Shrinks _ (annotate "can't remove" (remove_link f link)) t
        (remove_link-Shrinks t link h)
        λ u e1.
          >>=-after Shrinks (λ _. pure true) (remove_if_unreferenced refs f getter (base dest)) _
            (remove_if_unreferenced-Shrinks _ (base dest) e (remove_link-Shrinks t link h))
            λ v e2. remove_if_unreferenced-Shrinks _ (base dest) e (remove_link-Shrinks t link h))

  at_link-Shrinks :
      (found : Option Entry) (link : Str) (t : Disk)
      → Shrinks t
      → Shrinks (at_link refs f getter link n found t).1
  unfolding annotate
  at_link-Shrinks none link t h = h
  at_link-Shrinks (some entry) link t h =
      >>=-after Shrinks _ (annotate "error reading link" (readlink f link)) t
        (rw (readlink-reads refs f reads getter t _) h)
        λ dest e.
          unless_kept-Shrinks (str_eq (base dest) n) link dest _ refl
            (rw (readlink-reads refs f reads getter t _) h)

  pub remove_image_if_its_not_needed-Shrinks :
      (name : Str) → Shrinks (remove_image_if_its_not_needed refs f getter name n d).1
  unfolding remove_image_if_its_not_needed annotate
  remove_image_if_its_not_needed-Shrinks name =
      let all : Shrinks d = ((λ l e here. here), refl, refl) in
      >>=-after Shrinks _ (annotate "can't stat" (lstat_link f (link_file_name refs name))) d
        (rw (lstat_link-reads refs f reads getter d _) all)
        λ found e.
          at_link-Shrinks found (link_file_name refs name) _
            (rw (lstat_link-reads refs f reads getter d _) all)
