-- ===== src/Image/Store.antt =====
-- FileStore: listing, placing and removing images, and the collection of unused data.
use virtlet.Prelude.{
  ℕ, Str, str_eq, Bool, true, false, ◌&&◌, ◌||◌, Option, none, some, List, [], ◌∷◌, length,
  if◌then◌else◌,
}
use virtlet.Prelude.Dict.{Dict}
use virtlet.Result.{ok, err, fault, errorf}
use virtlet.Prog.{Prog, pure, raise, crash, attempt, annotate, get_state, ◌>>=◌, ◌>>◌}
use virtlet.Image.Names.{
  Digest, digest_eq, References, split_image_name, link_file_name, image_name,
}
use virtlet.Image.Files.{
  Dest, to_data, elsewhere, Entry, symlink, regular, directory, FilePath, link_dir, data_path,
  joined, Disk, Faults, failing, stat, lstat_link, readlink,
}

pub record Image : Type 0 where
  pub digest : Digest
  pub name : Str
  pub path : FilePath
  pub size : ℕ

abbrev pub is_empty : Str → Bool
is_empty [] = true
is_empty (c ∷ s) = false

-- A test that is made only where the digest is given.
abbrev pub agrees : Option Digest → Digest → Bool
agrees none d = true
agrees (some spec) d = digest_eq d spec

abbrev pub in_names : Str → List Str → Bool
in_names name [] = false
in_names name (x ∷ xs) = str_eq x name || in_names name xs

module _ (refs : References) (f : Faults) where
  -- What an image at the end of a link is, once its data was found.
  abbrev found_image : Str → Dest → Option Str → Prog Disk Image
  found_image link dest none = raise (errorf "stat")
  found_image link (elsewhere name exists) (some content) = raise (errorf "not a proper data path")
  found_image link (to_data name) (some content) = pure record {
    digest = record { sha256 = true; hex = name };
    name = image_name link;
    path = data_path name;
    size = length content;
  }

  unfoldable pub image_info : Str → Entry → Prog Disk Image
  image_info link regular = raise (errorf "not a symbolic link")
  image_info link directory = raise (errorf "not a symbolic link")
  image_info link (symlink _) = do
    dest ← annotate "error reading link" (readlink f link)
    content ← annotate "stat" (stat f (joined dest))
    found_image link dest content

  -- The filter's name is not tested where it is empty.
  abbrev pub passes : Str → Option Digest → Image → Bool
  passes filter spec image =
      (is_empty filter || str_eq image.name filter) && agrees spec image.digest

  abbrev pub is_dir : Entry → Bool
  is_dir directory = true
  is_dir regular = false
  is_dir (symlink dest) = false

  -- Links that cannot be read are skipped.
  unfoldable pub list_each : Str → Option Digest → Dict Entry → Prog Disk (List Image)
  list_each filter spec [] = pure []
  list_each filter spec ((link, entry) ∷ links) = do
    r ← attempt (image_info link entry)
    images ← list_each filter spec links
    if is_dir entry then pure images else elim r [
      | ok image ↦ if passes filter spec image then pure (image ∷ images) else pure images
      | err e ↦ pure images
      | fault x ↦ crash x
    ]

  abbrev filter_parts : Str → Str × Option Digest
  filter_parts [] = ([], none)
  filter_parts (c ∷ s) = split_image_name refs (c ∷ s)

  unfoldable pub list_images : Str → Prog Disk (List Image)
  list_images filter = do
    let (name, spec) = filter_parts filter
    exists ← annotate "error checking for link dir" (stat f link_dir)
    elim exists [
      | none ↦ pure []
      | some _ ↦ (do
        annotate "readdir" (failing (f.readdir link_dir))
        d ← get_state
        list_each name spec d.links)
    ]

  unfoldable pub image_status : Str → Prog Disk (Option Image)
  image_status name = do
    found ← annotate "can't stat" (lstat_link f (link_file_name refs name))
    elim found [
      | none ↦ pure none
      | some entry ↦ (do
        info ← image_info (link_file_name refs name) entry
        if agrees (split_image_name refs name).1 info.digest
            then pure (some info)
            else raise (errorf "image digest mismatch"))
    ]
