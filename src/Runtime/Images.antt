-- ===== src/Runtime/Images.antt =====
-- pkg/manager/image.go: the image service of CRI over the image store.
use virtlet.Prelude.{ℕ, Str, Option, none, some, List, [], ◌∷◌, map}
use virtlet.Prog.{Prog, pure, ◌>>=◌}
use virtlet.Image.Names.{Digest, References}
use virtlet.Image.Files.{Disk, Faults}
use virtlet.Image.Store.{Image, image_status, list_images}
use virtlet.Image.Change.{Getter, remove_image}
use virtlet.Image.Pull.{Downloads, pull_image}

-- kubeapi.Image
pub record CriImage : Type 0 where
  pub id : Digest
  pub repo_tags : List Str
  pub size : ℕ

-- kubeapi.FilesystemUsage
pub record FsUsage : Type 0 where
  pub timestamp : ℕ
  pub mountpoint : Str
  pub used_bytes : ℕ
  pub inodes_used : ℕ

unfoldable pub image_to_kubeapi : Image → CriImage
image_to_kubeapi i = record { id = i.digest; repo_tags = i.name ∷ []; size = i.size }

-- A nil image gives a nil image.
unfoldable pub status_to_kubeapi : Option Image → Option CriImage
status_to_kubeapi none = none
status_to_kubeapi (some i) = some (image_to_kubeapi i)

module _ (refs : References) (f : Faults) (dl : Downloads) (getter : Getter refs f) where
  -- The name of a request without a filter or an image is empty.
  unfoldable pub list_images_request : Str → Prog Disk (List CriImage)
  unfolding image_to_kubeapi
  list_images_request name = do images ← list_images refs f name; pure (map image_to_kubeapi images)

  unfoldable pub image_status_request : Str → Prog Disk (Option CriImage)
  unfolding status_to_kubeapi image_to_kubeapi
  image_status_request name = do found ← image_status refs f name; pure (status_to_kubeapi found)

  unfoldable pub pull_image_request : Str → Prog Disk Str
  pull_image_request name = pull_image refs f dl getter name

  unfoldable pub remove_image_request : Str → Prog Disk (Unit {0})
  remove_image_request name = remove_image refs f getter name

-- The statistics come from the file system of the store, and the time from the clock.
unfoldable pub image_fs_info : {S : Type 0} → Prog S (Str × ℕ × ℕ) → Prog S ℕ → Prog S FsUsage
image_fs_info stats now = do
  s ← stats
  t ← now
  pure (record { timestamp = t; mountpoint = s.0; used_bytes = s.1; inodes_used = s.2 })
