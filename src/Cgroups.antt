-- ===== src/Cgroups.antt =====
-- pkg/utils/cgroups/controllers.go: the cgroup controllers of a process.
pub mod Parsing
use virtlet.Prelude.{
  ℕ, Str, codes, str_eq, has_prefix, Option, none, some, List, [], ◌∷◌, ◌++◌, drop, if◌then◌else◌,
  ◌==◌,
}
use virtlet.Prelude.Dict.{Dict, insert, lookup}
use virtlet.Result.{Result, ok, err, fault, panic, errorf}
use virtlet.Prog.{Prog, pure, raise, lift, ◌>>=◌}
use virtlet.World.{World}

abbrev cgroupfs : Str
cgroupfs = codes "/sys/fs/cgroup"

abbrev pub line_end : ℕ
line_end = 10

abbrev pub colon : ℕ
colon = 58

abbrev pub to_first : ℕ → List Str → List Str
to_first c [] = (c ∷ []) ∷ []
to_first c (l ∷ ls) = (c ∷ l) ∷ ls

-- The lines that ReadString('\n') gives until the end of the file, without their ends; what follows
-- the last line end is a line too.
unfoldable pub lines : Str → List Str
lines [] = [] ∷ []
lines (c ∷ s) = let rest = lines s in if c == line_end then [] ∷ rest else to_first c rest

abbrev pub longer : ℕ → Option (Str × Str) → Option (Str × Str)
longer c none = none
longer c (some (a, b)) = some (c ∷ a, b)

-- strings.SplitN(s, sep, 2), where there is a separator
unfoldable pub cut : ℕ → Str → Option (Str × Str)
cut sep [] = none
cut sep (c ∷ s) = let rest = cut sep s in if c == sep then some ([], s) else longer c rest

-- The name of a named hierarchy follows "name=".
unfoldable pub controller_name : Str → Str
controller_name n = if has_prefix n (codes "name=") then drop 5 n else n

-- parts[1] and parts[2] of strings.SplitN(line, ":", 3): a line with less than two separators makes
-- an index go out of range.
unfoldable pub name_and_path : Str → Result (Str × Str)
name_and_path line = elim (cut colon line) [
  | none ↦ fault panic
  | some (number, rest) ↦ elim (cut colon rest) [
    | none ↦ fault panic
    | some (name, path) ↦ ok (controller_name name, path)
  ]
]

abbrev pub with_line : Dict Str → Result (Str × Str) → Result (Dict Str)
with_line m (ok (name, path)) = ok (insert name path m)
with_line m (err e) = err e
with_line m (fault f) = fault f

abbrev pub after_line : (Dict Str → Result (Dict Str)) → Result (Dict Str) → Result (Dict Str)
after_line rest (ok m) = rest m
after_line rest (err e) = err e
after_line rest (fault f) = fault f

-- The loop over the lines, which ends at the first empty one.
unfoldable pub controllers_of : List Str → Dict Str → Result (Dict Str)
controllers_of [] m = ok m
controllers_of ([] ∷ ls) m = ok m
controllers_of ((c ∷ l) ∷ ls) m =
    after_line (controllers_of ls) (with_line m (name_and_path (c ∷ l)))

-- cgroups.Controller
pub record Controller : Type 0 where
  pub name : Str
  pub path : Str

-- The methods of RealManager for the process `pid`.
module _ (x : World) where
  open x use {W}

  unfoldable pub get_process_controllers : Str → Prog W (Dict Str)
  get_process_controllers pid = do
    text ← x.get_delimited_reader (x.join_path (codes "/proc" ∷ pid ∷ codes "cgroup" ∷ []))
    lift (controllers_of (lines text) [])

  unfoldable pub get_process_controller : Str → Str → Prog W Controller
  get_process_controller pid name = do
    controllers ← get_process_controllers pid
    elim (lookup name controllers) [
      | none ↦ raise (errorf "controller for process not found")
      | some path ↦ pure (record { name = name; path = path })
    ]

  unfoldable pub move_process : Str → Str → Str → Prog W (Unit {0})
  move_process pid controller path =
      x.write_file (x.join_path (cgroupfs ∷ controller ∷ path ∷ codes "cgroup.procs" ∷ [])) pid

  -- Controller.Set
  unfoldable pub set : Controller → Str → Str → Prog W (Unit {0})
  set c name value =
      x.write_file (x.join_path (cgroupfs ∷ c.name ∷ c.path ∷ (c.name ++ codes "." ++ name) ∷ []))
        value
