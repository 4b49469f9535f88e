-- ===== src/Image/Change.antt =====
-- FileStore: placing and removing images, and the collection of unused data.
use virtlet.Prelude.{
  Str, str_eq, Bool, true, false, not, ◌&&◌, Option, none, some, List, [], ◌∷◌, ◌++◌, if◌then◌else◌,
}
use virtlet.Prelude.Dict.{Dict}
use virtlet.Result.{Result, ok, err, fault, errorf}
use virtlet.Prog.{Prog, pure, raise, crash, lift, attempt, annotate, get_state, ◌>>=◌, ◌>>◌}
use virtlet.Image.Names.{References, get_hex_digest, link_file_name}
use virtlet.Image.Files.{
  Dest, to_data, base, Entry, link_path, data_path, Disk, Faults, stat, lstat_link, readlink,
  remove_link, remove_data, rename_data, make_link, mkdir_links,
}
use virtlet.Image.Store.{Image, is_empty, in_names, list_images}

module _ (refs : References) (f : Faults) where
  -- The hex digests that are set in the map of the reference getter.
  unfoldable pub hex_digests : List (Str × Bool) → List Str
  hex_digests [] = []
  hex_digests ((spec, present) ∷ specs) =
      let rest = hex_digests specs in
      if present && not (is_empty (get_hex_digest refs spec))
      then get_hex_digest refs spec ∷ rest
      else rest

  unfoldable pub digests_of : List Image → List Str
  digests_of [] = []
  digests_of (image ∷ images) =
      let rest = digests_of images in
      if refs.is_valid image.digest then image.digest.hex ∷ rest else rest

  -- What the reference getter returns, where there is one.
  abbrev pub Getter : Type 0
  Getter = Option (Result (List (Str × Bool)))

  abbrev pub referenced : Getter → Result (List (Str × Bool))
  referenced none = ok []
  referenced (some r) = r

  unfoldable pub get_image_hex_digests_in_use : Getter → Prog Disk (List Str)
  get_image_hex_digests_in_use getter = do
    specs ← annotate "error listing images in use" (lift (referenced getter))
    images ← list_images refs f []
    pure (hex_digests specs ++ digests_of images)

  unfoldable pub remove_if_unreferenced : Getter → Str → Prog Disk (Unit {0})
  remove_if_unreferenced getter hex = do
    in_use ← get_image_hex_digests_in_use getter
    if in_names hex in_use then pure tt else remove_data f hex

  abbrev pub unless_kept : Getter → Str → Str → Dest → Prog Disk Bool
  unless_kept getter link keep dest = if str_eq (base dest) keep then pure false else (do
    annotate "can't remove" (remove_link f link)
    remove_if_unreferenced getter (base dest)
    pure true)

  abbrev pub at_link : Getter → Str → Str → Option Entry → Prog Disk Bool
  at_link getter link keep none = pure true
  at_link getter link keep (some _) = do
    dest ← annotate "error reading link" (readlink f link)
    unless_kept getter link keep dest

  unfoldable pub remove_image_if_its_not_needed : Getter → Str → Str → Prog Disk Bool
  remove_image_if_its_not_needed getter name keep = do
    found ← annotate "can't stat" (lstat_link f (link_file_name refs name))
    at_link getter (link_file_name refs name) keep found

  abbrev pub place_data : Str → Str → Option Str → Prog Disk Bool
  place_data old new (some _) = annotate "error removing" (remove_data f old) >> pure false
  place_data old new none = rename_data f old new >> pure true

  unfoldable pub rename_if_new_or_delete : Str → Str → Prog Disk Bool
  rename_if_new_or_delete old new = do found ← stat f (data_path new); place_data old new found

  abbrev pub clear_link : Getter → Str → Str → Option Str → Prog Disk Bool
  clear_link getter name data_name none = pure true
  clear_link getter name data_name (some _) =
      annotate "error removing old symlink" (remove_image_if_its_not_needed getter name data_name)

  -- Whether the link is to be made: not where the image has it.
  unfoldable pub make_way : Getter → Str → Str → Prog Disk Bool
  make_way getter name data_name = do
    found ← annotate "error checking for symlink" (stat f (link_path (link_file_name refs name)))
    clear_link getter name data_name found

  -- Data that came with the image goes where the link cannot be made.
  abbrev pub linked_or_undone : Bool → Str → Result (Unit {0}) → Prog Disk (Unit {0})
  linked_or_undone is_new data_name (ok _) = pure tt
  linked_or_undone is_new data_name (fault x) = crash x
  linked_or_undone is_new data_name (err e) = do
    _ ← attempt (if is_new then remove_data f data_name else pure tt)
    raise (errorf "error creating symbolic link")

  unfoldable pub link_image : Str → Str → Bool → Bool → Prog Disk (Unit {0})
  link_image data_name name is_new missing = do
    r ←
        attempt
          (if missing then make_link f (to_data data_name) (link_file_name refs name) else pure tt)
    linked_or_undone is_new data_name r

  unfoldable pub place_image : Getter → Str → Str → Str → Prog Disk (Unit {0})
  place_image getter temp data_name name = do
    is_new ← annotate "error placing the image" (rename_if_new_or_delete temp data_name)
    annotate "mkdir" (mkdir_links f)
    missing ← make_way getter name data_name
    link_image data_name name is_new missing

  unfoldable pub remove_image : Getter → Str → Prog Disk (Unit {0})
  remove_image getter name = remove_image_if_its_not_needed getter name [] >>= λ removed. pure tt

  abbrev pub removal : Str → Bool → Prog Disk (Unit {0})
  removal name true = pure tt
  removal name false = remove_data f name

  -- A file that cannot be removed is left.
  unfoldable pub collect : List Str → Dict Str → Prog Disk (Unit {0})
  collect in_use [] = pure tt
  collect in_use ((name, content) ∷ files) = do
    _ ← attempt (removal name (in_names name in_use))
    collect in_use files

  unfoldable pub gc : Getter → Prog Disk (Unit {0})
  gc getter = do
    in_use ← get_image_hex_digests_in_use getter
    d ← get_state
    collect in_use d.data_files
