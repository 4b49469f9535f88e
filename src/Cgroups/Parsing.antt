-- ===== src/Cgroups/Parsing.antt =====
-- controllers.go: reading back the kernel's table of a process's cgroups.
use virtlet.Prelude.{
  ℕ, Str, Bool, true, not, ◌&&◌, some, List, [], ◌∷◌, ◌++◌, ◌==◌, ◌≡◌, refl, ap, ◌∙◌, arith,
}
use virtlet.Prelude.Dict.{Dict, insert}
use virtlet.Result.{ok}
use virtlet.Cgroups.{
  after_line, colon, controller_name, controllers_of, cut, line_end, lines, name_and_path,
  with_line,
}

-- A line of the table: the number of the hierarchy, the controller and the path.
pub record Entry : Type 0 where
  pub number : Str
  pub name : Str
  pub path : Str

unfoldable pub line_of_entry : Entry → Str
line_of_entry e = e.number ++ colon ∷ (e.name ++ colon ∷ e.path)

unfoldable pub text_of : List Entry → Str
text_of [] = []
text_of (e ∷ es) = line_of_entry e ++ line_end ∷ text_of es

-- The map that the table stands for: of two lines with one name, the later one counts.
unfoldable pub table : List Entry → Dict Str → Dict Str
table [] m = m
table (e ∷ es) m = table es (insert (controller_name e.name) e.path m)

unfoldable pub lacks : ℕ → Str → Bool
lacks c [] = true
lacks c (x ∷ s) = not (x == c) && lacks c s

-- No line end in an entry, and no colon before the path.
pub record IsEntry (e : Entry) : Type 0 where
  pub number_colon : lacks colon e.number ≡ true
  pub name_colon : lacks colon e.name ≡ true
  pub number_end : lacks line_end e.number ≡ true
  pub name_end : lacks line_end e.name ≡ true
  pub path_end : lacks line_end e.path ≡ true

abbrev pub AreEntries : List Entry → Type 0
AreEntries [] = Unit {0}
AreEntries (e ∷ es) = IsEntry e × AreEntries es

cut-append : (sep : ℕ) (a b : Str) → lacks sep a ≡ true → cut sep (a ++ sep ∷ b) ≡ some (a, b)
unfolding cut lacks
cut-append sep [] b h = ground arith
cut-append sep (x ∷ a) b h = ground (arith, cut-append sep a b)

lines-append :
    (l rest : Str) → lacks line_end l ≡ true → lines (l ++ line_end ∷ rest) ≡ l ∷ lines rest
unfolding lines lacks
lines-append [] rest h = refl
lines-append (x ∷ l) rest h = ground (arith, lines-append l rest)

lacks-append : (c : ℕ) (a b : Str) → lacks c (a ++ b) ≡ lacks c a && lacks c b
unfolding lacks
lacks-append c [] b = refl
lacks-append c (x ∷ a) b = ground (arith, lacks-append c a b)

line_of_entry-lacks : (e : Entry) → IsEntry e → lacks line_end (line_of_entry e) ≡ true
unfolding line_of_entry lacks
line_of_entry-lacks e h =
    rw (lacks-append line_end e.number _, h.number_end)
      (rw (lacks-append line_end e.name _, h.name_end) h.path_end)

name_and_path-line_of_entry :
    (e : Entry) → IsEntry e → name_and_path (line_of_entry e) ≡ ok (controller_name e.name, e.path)
unfolding name_and_path line_of_entry
name_and_path-line_of_entry e h = rw (
  name_and_path,
  cut-append colon e.number (e.name ++ colon ∷ e.path) h.number_colon,
  cut-append colon e.name e.path h.name_colon,
)

-- A line with something in it goes into the map.
controllers_of-step :
    (number rest : Str) (ls : List Str) (m : Dict Str)
    → controllers_of ((number ++ colon ∷ rest) ∷ ls) m
      ≡ after_line (controllers_of ls) (with_line m (name_and_path (number ++ colon ∷ rest)))
unfolding controllers_of
controllers_of-step [] rest ls m = refl
controllers_of-step (x ∷ n) rest ls m = refl

-- Reading the table of a process gives the map that it was written from, where no entry has a line
-- end in it and no colon in its number or its name; nothing panics.
pub controllers_of-text_of :
    (es : List Entry) (m : Dict Str)
    → AreEntries es
    → controllers_of (lines (text_of es)) m ≡ ok (table es m)
unfolding text_of table lines controllers_of line_of_entry
controllers_of-text_of [] m h = refl
controllers_of-text_of (e ∷ es) m (is, rest) =
    ap (λ ls. controllers_of ls m)
      (lines-append (line_of_entry e) (text_of es) (line_of_entry-lacks e is))
    ∙ controllers_of-step e.number (e.name ++ colon ∷ e.path) (lines (text_of es)) m
    ∙ ap (λ r. after_line (controllers_of (lines (text_of es))) (with_line m r))
        (name_and_path-line_of_entry e is)
    ∙ controllers_of-text_of es (insert (controller_name e.name) e.path m) rest
