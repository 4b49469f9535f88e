-- ===== src/Image/Pull.antt =====
-- PullImage, and the lookup of an image's data by a reference or a digest.
use virtlet.Prelude.{
  ℕ, Str, str_eq, Bool, true, false, not, Option, none, some, [], ◌∷◌, if◌then◌else◌,
}
use virtlet.Prelude.Dict.{insert}
use virtlet.Result.{Result, ok, err, fault, errorf}
use virtlet.Prog.{Prog, pure, raise, crash, lift, attempt, annotate, get_state, ◌>>=◌, ◌>>◌}
use virtlet.Image.Names.{Digest, digest_eq, Reference, References, split_image_name, link_file_name}
use virtlet.Image.Files.{
  Dest, base, FilePath, data_dir, data_path, joined, Disk, Faults, failing, stat, readlink,
  remove_data, put,
}
use virtlet.Image.Change.{Getter, place_image}

-- The Translator and the Downloader, and ioutil.TempFile's choice of a name.
pub record Downloads : Type 1 where
  pub Endpoint : Type 0
  pub translate : Str → Endpoint
  pub download : Endpoint → Result Str
  pub temp_name : Disk → Str

module _ (refs : References) (f : Faults) (dl : Downloads) where
  unfoldable pub temp_file : Prog Disk Str
  temp_file = do
    failing f.temp_file
    d ← get_state
    put f (record d { data_files = insert (dl.temp_name d) [] d.data_files })
    pure (dl.temp_name d)

  unfoldable pub write_file : Str → Str → Prog Disk (Unit {0})
  write_file name content = do
    d ← get_state
    put f (record d { data_files = insert name content d.data_files })

  abbrev pub mismatch : Option Digest → Digest → Bool
  mismatch none d = false
  mismatch (some spec) d = not (digest_eq d spec)

  -- The rest of PullImage, once the temporary file has its content.
  abbrev pub place_checked : Getter refs f → Str → Str → Digest → Bool → Prog Disk Str
  place_checked getter name temp d true = raise (errorf "image digest mismatch")
  place_checked getter name temp d false = do
    place_image refs f getter temp d.hex name
    lift (refs.with_digest name d)

  -- The rest of PullImage, once the temporary file has its content.
  unfoldable pub place_download : Getter refs f → Str → Option Digest → Str → Str → Prog Disk Str
  place_download getter name spec temp content = do
    failing f.read_back
    place_checked getter name temp (refs.from_bytes content)
        (mismatch spec (refs.from_bytes content))

  abbrev pub take_download : Getter refs f → Str → Option Digest → Str → Result Str → Prog Disk Str
  take_download getter name spec temp (err e) = do
    _ ← attempt (remove_data f temp)
    raise (errorf "error downloading")
  take_download getter name spec temp (fault x) = crash x
  take_download getter name spec temp (ok content) = do
    write_file temp content
    place_download getter name spec temp content

  unfoldable pub pull_image : Getter refs f → Str → Prog Disk Str
  pull_image getter image = do
    let (name, spec) = split_image_name refs image
    annotate "mkdir" (failing (f.mkdir data_dir))
    temp ← annotate "failed to create a temporary file" temp_file
    take_download getter name spec temp (dl.download (dl.translate name))

module _ (refs : References) (f : Faults) (vsize : FilePath → Result ℕ) where
  -- What is found of the data: through the digest, through the name, and the digest to return.
  pub record Found : Type 0 where
    pub via_digest : Option FilePath
    pub via_name : Option FilePath
    pub digest : Option Digest

  abbrev pub sha256_only : Digest → Prog Disk (Unit {0})
  sha256_only d = if d.sha256 then pure tt else raise (errorf "bad image digest (need sha256)")

  abbrev pub named : Option Str → Option Str
  named (some (c ∷ s)) = some (c ∷ s)
  named _ = none

  -- A link that cannot be read is passed over.
  abbrev pub through_found : Option FilePath → Option Digest → Result Dest → Prog Disk Found
  through_found via d (ok dest) = pure record {
    via_digest = via;
    via_name = some (joined dest);
    digest = some record { sha256 = true; hex = base dest };
  }
  through_found via d (err e) = pure record { via_digest = via; via_name = none; digest = d }
  through_found via d (fault x) = crash x

  abbrev pub through_link : Option FilePath → Option Digest → Str → Prog Disk Found
  through_link via d name = do
    r ← attempt (readlink f (link_file_name refs name))
    through_found via d r

  abbrev pub through_name : Option FilePath → Option Digest → Option Str → Prog Disk Found
  through_name via d none = pure record { via_digest = via; via_name = none; digest = d }
  through_name via d (some name) = through_link via d name

  unfoldable pub find_by_reference : Reference → Prog Disk Found
  find_by_reference r = elim r.digest [
    | none ↦ through_name none none (named r.name)
    | some d ↦ sha256_only d >> through_name (some (data_path d.hex)) (some d) (named r.name)
  ]

  unfoldable pub find_image : Str → Prog Disk Found
  find_image ref = elim (refs.parse_digest ref) [
    | some d ↦
        sha256_only d
        >> pure record { via_digest = some (data_path d.hex); via_name = none; digest = some d }
    | none ↦ elim (refs.parse ref) [
      | none ↦ raise (errorf "bad image reference")
      | some r ↦ find_by_reference r
    ]
  ]

  -- os.SameFile, where both paths lead to a file: the data directory has no hard links, so its files
  -- are the same if their names are, and what is out of it is none of them.
  abbrev pub same_file : FilePath → FilePath → Bool
  same_file (data_path a) (data_path b) = str_eq a b
  same_file _ _ = false

  abbrev pub must_exist : FilePath → Prog Disk (Unit {0})
  must_exist p = do
    found ← stat f p
    elim found [ none ↦ raise (errorf "no such file") | some _ ↦ pure tt ]

  unfoldable pub choose_path : Found → Prog Disk FilePath
  choose_path found = elim found.via_digest [
    | none ↦ elim found.via_name [ none ↦ raise (errorf "bad image reference") | some p ↦ pure p ]
    | some q ↦ elim found.via_name [
      | none ↦ pure q
      | some p ↦
          must_exist p
          >> must_exist q
          >> (if same_file p q then pure q else raise (errorf "digest / name path mismatch"))
    ]
  ]

  unfoldable pub get_image_path_digest_and_virtual_size :
      Str → Prog Disk (FilePath × Option Digest × ℕ)
  get_image_path_digest_and_virtual_size ref = do
    found ← find_image ref
    path ← choose_path found
    size ← annotate "error getting image size" (lift (vsize path))
    pure (path, found.digest, size)
