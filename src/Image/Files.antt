-- ===== src/Image/Files.antt =====
-- The store's directory, and the calls of package os on it.
use virtlet.Prelude.{Str, Bool, true, Option, none, some, [], if◌then◌else◌}
use virtlet.Prelude.Dict.{Dict, lookup, insert, erase}
use virtlet.Result.{Error, ok, err, errorf}
use virtlet.Prog.{Prog, pure, raise, get_state, ◌>>=◌, ◌>>◌}

-- Where a symbolic link leads: to `../data/` and a name, or out of the data directory, which has the
-- base name and says whether there is anything.
pub data Dest : Type 0 where
  to_data : Str → Dest
  elsewhere : Str → Bool → Dest

abbrev pub base : Dest → Str
base (to_data name) = name
base (elsewhere name exists) = name

pub data Entry : Type 0 where
  symlink : Dest → Entry
  regular directory : Entry

pub data FilePath : Type 0 where
  link_dir data_dir : FilePath
  link_path data_path : Str → FilePath
  outside : Str → Bool → FilePath

-- filepath.Join(linkDir, dest)
abbrev pub joined : Dest → FilePath
joined (to_data name) = data_path name
joined (elsewhere name exists) = outside name exists

pub record Disk : Type 0 where
  pub has_link_dir : Bool
  pub links : Dict Entry
  pub data_files : Dict Str

-- What goes wrong for reasons of its own: permissions, the device.
pub record Faults : Type 0 where
  pub stat : FilePath → Option Error
  pub lstat : FilePath → Option Error
  pub readlink : FilePath → Option Error
  pub readdir : FilePath → Option Error
  pub remove : FilePath → Option Error
  pub rename : FilePath → Option Error
  pub make_link : FilePath → Option Error
  pub mkdir : FilePath → Option Error
  pub temp_file : Option Error
  pub read_back : Option Error

abbrev pub failing : Option Error → Prog Disk (Unit {0})
failing none s = (ok tt, s)
failing (some e) s = (err e, s)

abbrev entry_content : Dict Str → Entry → Option Str
entry_content files (symlink (to_data name)) = lookup name files
entry_content files (symlink (elsewhere name exists)) = if exists then some [] else none
entry_content files regular = some []
entry_content files directory = some []

-- The content of what a path leads to. No path but those of the data files is read.
unfoldable pub resolve : Disk → FilePath → Option Str
resolve d link_dir = if d.has_link_dir then some [] else none
resolve d data_dir = some []
resolve d (data_path name) = lookup name d.data_files
resolve d (link_path name) = elim (lookup name d.links) [
  | none ↦ none
  | some entry ↦ entry_content d.data_files entry
]
resolve d (outside name exists) = if exists then some [] else none

module _ (f : Faults) where
  -- `none` is os.IsNotExist.
  unfoldable pub stat : FilePath → Prog Disk (Option Str)
  stat p = do failing (f.stat p); d ← get_state; pure (resolve d p)

  unfoldable pub lstat_link : Str → Prog Disk (Option Entry)
  lstat_link name = do failing (f.lstat (link_path name)); d ← get_state; pure (lookup name d.links)

  abbrev destination : Option Entry → Prog Disk Dest
  destination (some (symlink dest)) = pure dest
  destination (some regular) = raise (errorf "invalid argument")
  destination (some directory) = raise (errorf "invalid argument")
  destination none = raise (errorf "no such file")

  unfoldable pub readlink : Str → Prog Disk Dest
  readlink name = do
    failing (f.readlink (link_path name))
    d ← get_state
    destination (lookup name d.links)

  abbrev pub put : Disk → Prog Disk (Unit {0})
  put d s = (ok tt, d)

  unfoldable pub remove_link : Str → Prog Disk (Unit {0})
  remove_link name = do
    failing (f.remove (link_path name))
    d ← get_state
    elim (lookup name d.links) [
      | none ↦ raise (errorf "no such file")
      | some entry ↦ put (record d { links = erase name d.links })
    ]

  unfoldable pub remove_data : Str → Prog Disk (Unit {0})
  remove_data name = do
    failing (f.remove (data_path name))
    d ← get_state
    elim (lookup name d.data_files) [
      | none ↦ raise (errorf "no such file")
      | some content ↦ put (record d { data_files = erase name d.data_files })
    ]

  unfoldable pub rename_data : Str → Str → Prog Disk (Unit {0})
  rename_data old new = do
    failing (f.rename (data_path old))
    d ← get_state
    elim (lookup old d.data_files) [
      | none ↦ raise (errorf "no such file")
      | some content ↦ put (record d { data_files = insert new content (erase old d.data_files) })
    ]

  unfoldable pub make_link : Dest → Str → Prog Disk (Unit {0})
  make_link dest name = do
    failing (f.make_link (link_path name))
    d ← get_state
    elim (lookup name d.links) [
      | some entry ↦ raise (errorf "file exists")
      | none ↦ put (record d { links = insert name (symlink dest) d.links })
    ]

  unfoldable pub mkdir_links : Prog Disk (Unit {0})
  mkdir_links = do failing (f.mkdir link_dir); d ← get_state; put (record d { has_link_dir = true })
