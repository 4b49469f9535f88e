-- ===== src/Image/Pulled.antt =====
-- Pulling an image keeps every link leading to its data.
use virtlet.Prelude.{
  Str, str_eq, Bool, inl, inr, true, false, ◌≡◌, ◌⊎◌, refl, ap, ◌∙◌, Option, none, some, [],
  if◌then◌else◌, arith,
}
use virtlet.Prelude.Dict.{insert, lookup-insert}
use virtlet.Result.{Error, Result, ok, err, fault, errorf}
use virtlet.Prog.{raise, attempt, annotate, ◌>>=◌}
use virtlet.Prog.Laws.{annotate-eq-ok}
use virtlet.Prog.After.{>>=-after}
use virtlet.Image.Names.{References, Digest}
use virtlet.Image.Files.{data_dir, Disk, Faults, failing, remove_data}
use virtlet.Image.Change.{Getter, place_image}
use virtlet.Image.Pull.{
  Downloads, temp_file, write_file, mismatch, place_checked, take_download, place_download,
  pull_image,
}
use virtlet.Image.Listing.{IsReadable}
use virtlet.Image.Sound.{IsSound, remove_untied-IsSound}
use virtlet.Image.Linked.{place_image-IsSound}

-- Names of temporary files are no digests, and the digest of some content is one.
pub record TellsApart (refs : References) (dl : Downloads) : Type 0 where
  pub temp : (d : Disk) → refs.is_valid (record { sha256 = true; hex = dl.temp_name d }) ≡ false
  pub content :
      (c : Str) → refs.is_valid (record { sha256 = true; hex = (refs.from_bytes c).hex }) ≡ true

module _ (refs : References) (f : Faults) (dl : Downloads) (reads : IsReadable f)
    (getter : Getter refs f) (apart : TellsApart refs dl) where
  written-IsSound :
      (d : Disk) (file content : Str)
      → IsSound refs d
      → IsSound refs (record d { data_files = insert file content d.data_files })
  written-IsSound d file content sound = record {
    linked = λ l name here.
        let (old, stored, valid) = sound.linked l name here in
        let (new, kept) = either (str_eq file name) old in
        (new, lookup-insert file name content d.data_files ∙ rw stored kept, valid);
    dir = sound.dir;
  }
    where
      either :
          (b : Bool) (old : Str) → (new : Str) × ((if b then some content else some old) ≡ some new)
      either true old = (content, refl)
      either false old = (old, refl)

  failing-reads : (e : Option Error) (d : Disk) → (failing e d).1 ≡ d
  failing-reads none d = refl
  failing-reads (some e) d = refl

  temp_file-IsSound : (d : Disk) → IsSound refs d → IsSound refs (temp_file refs f dl d).1
  unfolding temp_file ◌>>=◌
  temp_file-IsSound d sound = elim (temp_file-shape d) [
    | inl same ↦ rw same sound
    | inr made ↦ rw made (written-IsSound d (dl.temp_name d) [] sound)
  ]
    where
      temp_file-shape :
          (d : Disk)
          → ((temp_file refs f dl d).1 ≡ d)
            ⊎ ((temp_file refs f dl d).1
                ≡ record d { data_files = insert (dl.temp_name d) [] d.data_files })
      temp_file-shape d = ground arith

  temp_file-named :
      (d : Disk) (temp : Str)
      → temp_file refs f dl d ≡ (ok temp, (temp_file refs f dl d).1)
      → temp ≡ dl.temp_name d
  unfolding temp_file ◌>>=◌
  temp_file-named d temp h = ground (arith, h)

  place_download-IsSound :
      (name : Str) (spec : Option Digest) (temp content : Str) (d : Disk)
      → refs.is_valid (record { sha256 = true; hex = temp }) ≡ false
      → IsSound refs d
      → IsSound refs (place_download refs f dl getter name spec temp content d).1
  unfolding place_download
  place_download-IsSound name spec temp content d unnamed sound =
      >>=-after (IsSound refs) _ (failing f.read_back) d (rw (failing-reads f.read_back d) sound)
        λ u e.
          checked (mismatch refs f dl spec (refs.from_bytes content)) _
            (rw (failing-reads f.read_back d) sound)
    where
      checked :
          (b : Bool) (t : Disk)
          → IsSound refs t
          → IsSound refs (place_checked refs f dl getter name temp (refs.from_bytes content) b t).1
      checked true t h = h
      checked false t h =
          let placed =
            place_image-IsSound refs f reads getter (refs.from_bytes content).hex
              (apart.content content) temp unnamed name t h in
          >>=-after (IsSound refs) _
            (place_image refs f getter temp (refs.from_bytes content).hex name) t placed
            λ u e. placed

  write_file-IsSound :
      (d : Disk) (file content : Str)
      → IsSound refs d
      → IsSound refs (write_file refs f dl file content d).1
  unfolding write_file ◌>>=◌
  write_file-IsSound d file content sound = written-IsSound d file content sound

  take_download-IsSound :
      (name : Str) (spec : Option Digest) (temp : Str) (r : Result Str) (d : Disk)
      → refs.is_valid (record { sha256 = true; hex = temp }) ≡ false
      → IsSound refs d
      → IsSound refs (take_download refs f dl getter name spec temp r d).1
  unfolding attempt
  take_download-IsSound name spec temp (ok content) d unnamed sound =
      let written = write_file-IsSound d temp content sound in
      >>=-after (IsSound refs) _ (write_file refs f dl temp content) d written
        λ u e. place_download-IsSound name spec temp content _ unnamed written
  take_download-IsSound name spec temp (fault x) d unnamed sound = sound
  take_download-IsSound name spec temp (err e) d unnamed sound =
      let gone =
        remove_untied-IsSound refs f reads d temp sound
          (λ l here. clash (sound.linked l temp here).2) in
      >>=-after (IsSound refs) (λ _. raise (errorf "error downloading"))
        (attempt (remove_data f temp)) d gone λ r e2. gone
    where
      clash : refs.is_valid (record { sha256 = true; hex = temp }) ≡ true → ⊥
      clash valid = ground (arith, unnamed)

  -- Pulling an image keeps every link leading to its data, whatever fails on the way, where links
  -- and files can be examined and names of temporary files are no digests.
  pub pull_image-IsSound :
      (image : Str) (d : Disk)
      → IsSound refs d
      → IsSound refs (pull_image refs f dl getter image d).1
  unfolding pull_image annotate
  pull_image-IsSound image d sound =
      >>=-after (IsSound refs) _ (annotate "mkdir" (failing (f.mkdir data_dir))) d
        (rw (failing-reads (f.mkdir data_dir) d) sound)
        λ u e.
          let made =
            temp_file-IsSound (failing (f.mkdir data_dir) d).1
              (rw (failing-reads (f.mkdir data_dir) d) sound) in
          >>=-after (IsSound refs) _
            (annotate "failed to create a temporary file" (temp_file refs f dl)) _ made
            λ temp e2.
              take_download-IsSound _ _ temp _ _
                (unnamed _ temp
                  (annotate-eq-ok "failed to create a temporary file" (temp_file refs f dl) _ e2))
                made
    where
      unnamed :
          (t : Disk) (temp : Str)
          → temp_file refs f dl t ≡ (ok temp, (temp_file refs f dl t).1)
          → refs.is_valid (record { sha256 = true; hex = temp }) ≡ false
      unnamed t temp h =
          ap (λ (n : Str). refs.is_valid (record { sha256 = true; hex = n }))
            (temp_file-named t temp h)
          ∙ apart.temp t
