-- ===== src/Image/Listing.antt =====
-- What a listing of the links finds.
use virtlet.Prelude.{
  Str, str_eq, str_eq→eq, str_eq_refl, Bool, Bool-cases, inl, inr, true, false, not, ◌≡◌, ◌⊎◌, refl,
  ap, ◌∙◌, Option, none, some, List, [], ◌∷◌, length, if◌then◌else◌, arith,
}
use virtlet.Prelude.Dict.{Dict, lookup}
use virtlet.Result.{Result, ok, err, fault}
use virtlet.Prog.{attempt, annotate, ◌>>=◌}
use virtlet.Image.Names.{Digest, References, image_name}
use virtlet.Image.Files.{
  Dest, to_data, Entry, symlink, FilePath, link_path, data_path, Disk, Faults, stat, resolve,
  readlink,
}
use virtlet.Image.Store.{Image, image_info, passes, is_dir, list_each, list_images, in_names}
use virtlet.Image.Change.{Getter, get_image_hex_digests_in_use, digests_of}

-- No file is hidden by an error of its own.
pub record IsReadable (f : Faults) : Type 0 where
  pub stat : (p : FilePath) → f.stat p ≡ none
  pub readlink : (p : FilePath) → f.readlink p ≡ none

module _ (refs : References) (f : Faults) where
  abbrev faulted : {A : Type 0} → Result A → Bool
  faulted (ok a) = false
  faulted (err e) = false
  faulted (fault x) = true

  image_info-reads :
      (link : Str) (e : Entry) (d : Disk)
      → ((image_info refs f link e d).1 ≡ d) × (faulted (image_info refs f link e d).0 ≡ false)
  unfolding image_info readlink stat annotate ◌>>=◌
  image_info-reads link e d = ground arith

  abbrev kept_image : Str → Option Digest → Bool → Result Image → List Image → List Image
  kept_image name spec true r images = images
  kept_image name spec false (ok image) images =
      if passes refs f name spec image then image ∷ images else images
  kept_image name spec false (err e) images = images
  kept_image name spec false (fault x) images = images

  abbrev kept : Str → Option Digest → Disk → Dict Entry → List Image
  kept name spec d [] = []
  kept name spec d ((link, e) ∷ links) =
      kept_image name spec (is_dir refs f e) (image_info refs f link e d).0 (kept name spec d links)

  list_each-kept :
      (name : Str) (spec : Option Digest) (links : Dict Entry) (d : Disk)
      → list_each refs f name spec links d ≡ (ok (kept name spec d links), d)
  unfolding list_each ◌>>=◌ attempt
  list_each-kept name spec [] d = refl
  list_each-kept name spec ((link, e) ∷ links) d =
      ground (arith, list_each-kept name spec links d, image_info-reads link e d)

  image_info-found :
      (link : Str) (x : Dest) (d : Disk) (name content : Str)
      → IsReadable f
      → lookup link d.links ≡ some (symlink (to_data name))
      → lookup name d.data_files ≡ some content
      → image_info refs f link (symlink x) d ≡ (
        ok record {
          digest = record { sha256 = true; hex = name };
          name = image_name link;
          path = data_path name;
          size = length content;
        },
        d,
      )
  unfolding image_info readlink stat resolve annotate ◌>>=◌
  image_info-found link x d name content reads linked stored =
      rw (reads.readlink (link_path link), linked, reads.stat (data_path name), resolve, stored)

  in_names-head : (name : Str) (xs : List Str) → in_names name (name ∷ xs) ≡ true
  in_names-head name xs = rw (str_eq_refl name)

  digests_of-cons :
      (name : Str) (image : Image) (images : List Image)
      → in_names name (digests_of refs f images) ≡ true
      → in_names name (digests_of refs f (image ∷ images)) ≡ true
  unfolding digests_of
  digests_of-cons name image images h = ground arith

  digests_of-head :
      (name : Str) (image : Image) (images : List Image)
      → image.digest.hex ≡ name
      → refs.is_valid image.digest ≡ true
      → in_names name (digests_of refs f (image ∷ images)) ≡ true
  unfolding digests_of
  digests_of-head name image images same valid = ground (arith, same, str_eq_refl name)

  kept_image-keeps :
      (name : Str) (b : Bool) (r : Result Image) (images : List Image)
      → in_names name (digests_of refs f images) ≡ true
      → in_names name (digests_of refs f (kept_image [] none b r images)) ≡ true
  kept_image-keeps name true r images h = h
  kept_image-keeps name false (ok image) images h = digests_of-cons name image images h
  kept_image-keeps name false (err e) images h = h
  kept_image-keeps name false (fault x) images h = h

  found-lists :
      (d : Disk) (link : Str) (e : Entry) (name content : Str) (images : List Image)
      → IsReadable f
      → e ≡ symlink (to_data name)
      → lookup link d.links ≡ some (symlink (to_data name))
      → lookup name d.data_files ≡ some content
      → refs.is_valid (record { sha256 = true; hex = name }) ≡ true
      → in_names name (
          digests_of refs f
            (kept_image [] none (is_dir refs f e) (image_info refs f link e d).0 images))
        ≡ true
  found-lists d link e name content images reads same linked stored valid = rw same (
      rw (image_info-found link (to_data name) d name content reads linked stored)
        (digests_of-head name _ images refl valid))

  -- The listing of all links has the data that a link leads to.
  pub kept-lists :
      (d : Disk) (links : Dict Entry) (link name content : Str)
      → IsReadable f
      → lookup link links ≡ some (symlink (to_data name))
      → lookup link d.links ≡ some (symlink (to_data name))
      → lookup name d.data_files ≡ some content
      → refs.is_valid (record { sha256 = true; hex = name }) ≡ true
      → in_names name (digests_of refs f (kept [] none d links)) ≡ true
  unfolding lookup
  kept-lists d [] link name content reads here linked stored valid = absurd (cc)
  kept-lists d ((k, e) ∷ links) link name content reads here linked stored valid =
      elim (Bool-cases (str_eq k link)) [
        | inr other ↦
            kept_image-keeps name (is_dir refs f e) (image_info refs f k e d).0
              (kept [] none d links)
              (kept-lists d links link name content reads (ground arith) linked stored valid)
        | inl same ↦
            found-lists d k e name content _ reads (ground arith)
              (ap (λ (l : Str). lookup l d.links) (str_eq→eq k link same) ∙ linked) stored valid
      ]

  pub list_images-all :
      (d t : Disk) (images : List Image)
      → list_images refs f [] d ≡ (ok images, t)
      → (t ≡ d) × ((not d.has_link_dir) ≡ true ⊎ (images ≡ kept [] none d d.links))
  unfolding list_images stat resolve annotate ◌>>=◌
  list_images-all d t images h = ground (arith, h, list_each-kept [] none d.links d)

  list_images-reads : (d : Disk) → (list_images refs f [] d).1 ≡ d
  unfolding list_images stat annotate ◌>>=◌
  list_images-reads d = ground (arith, list_each-kept [] none d.links d)

  pub in_use-reads :
      (getter : Getter refs f) (d : Disk) → (get_image_hex_digests_in_use refs f getter d).1 ≡ d
  unfolding get_image_hex_digests_in_use annotate ◌>>=◌
  in_use-reads getter d = ground (arith, list_images-reads d)
