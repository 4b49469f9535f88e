-- ===== src/Image/Placed.antt =====
-- Bringing the data of an image to its place.
use virtlet.Prelude.{
  Str, str_eq, str_eq→eq, str_eq_refl, Bool, Bool-cases, inl, inr, true, false, ◌≡◌, ◌⊎◌, refl, sym,
  ap, ◌∙◌, Option, none, some, [], arith,
}
use virtlet.Prelude.Dict.{lookup, insert, erase, lookup-erase, lookup-insert}
use virtlet.Result.{Result, ok, succeeded, ok_injective}
use virtlet.Prog.{annotate, ◌>>=◌}
use virtlet.Prog.Laws.{ok->>=}
use virtlet.Image.Names.{References}
use virtlet.Image.Files.{
  to_data, symlink, FilePath, data_path, Disk, Faults, stat, resolve, remove_data, rename_data,
}
use virtlet.Image.Change.{Getter, place_data, rename_if_new_or_delete}
use virtlet.Image.Listing.{IsReadable}
use virtlet.Image.Sound.{IsSound}

module _ (refs : References) (f : Faults) (reads : IsReadable f) (getter : Getter refs f)
    (data_name : Str)
    (named : refs.is_valid (record { sha256 = true; hex = data_name }) ≡ true) where
  abbrev pub Untied : Disk → Type 0
  Untied t = (l : Str) → lookup l t.links ≡ some (symlink (to_data data_name)) → ⊥

  -- The data is there, and nothing leads to it if it is new.
  abbrev pub Ready : Bool → Disk → Type 0
  Ready is_new t =
      IsSound refs t
      × ((content : Str) × (lookup data_name t.data_files ≡ some content))
      × (is_new ≡ true → Untied t)

  pub stat-resolves : (t : Disk) (p : FilePath) → stat f p t ≡ (ok (resolve t p), t)
  unfolding stat ◌>>=◌
  stat-resolves t p = ground (arith, reads.stat p)

  module _ (temp : Str)
      (unnamed : refs.is_valid (record { sha256 = true; hex = temp }) ≡ false) where
    other_than_temp :
        (t : Disk) (l name : Str)
        → IsSound refs t
        → lookup l t.links ≡ some (symlink (to_data name))
        → str_eq temp name ≡ false
    other_than_temp t l name sound here = elim (Bool-cases (str_eq temp name)) [
      | inr differs ↦ differs
      | inl same ↦ absurd (clash (str_eq→eq temp name same) (sound.linked l name here).2)
    ]
      where
        clash : temp ≡ name → refs.is_valid (record { sha256 = true; hex = name }) ≡ true → ⊥
        clash e valid =
            let differs : refs.is_valid (record { sha256 = true; hex = name }) ≡ false =
              ap (λ (n : Str). refs.is_valid (record { sha256 = true; hex = n })) (sym e)
              ∙ unnamed in
            ground arith

    other_than_new :
        (t : Disk) (name old : Str)
        → lookup data_name t.data_files ≡ none
        → lookup name t.data_files ≡ some old
        → str_eq data_name name ≡ false
    other_than_new t name old missing stored = elim (Bool-cases (str_eq data_name name)) [
      | inr differs ↦ differs
      | inl same ↦
          absurd (clash (ap (λ (n : Str). lookup n t.data_files) (str_eq→eq data_name name same)))
    ]
      where
        clash : lookup data_name t.data_files ≡ lookup name t.data_files → ⊥
        clash e = ground arith

    renamed-Ready :
        (t : Disk) (content : Str)
        → IsSound refs t
        → lookup data_name t.data_files ≡ none
        → Ready true (record t { data_files = insert data_name content (erase temp t.data_files) })
    renamed-Ready t content sound missing = (
      record {
        linked = λ l name here.
            let (old, stored, valid) = sound.linked l name here in
            (
              old,
              lookup-insert data_name name content (erase temp t.data_files)
                  ∙ rw (other_than_new t name old missing stored) (
                      lookup-erase temp name t.data_files
                      ∙ rw (other_than_temp t l name sound here) stored),
              valid,
            );
        dir = sound.dir;
      },
      (
        content,
        lookup-insert data_name data_name content (erase temp t.data_files)
            ∙ rw (str_eq_refl data_name),
      ),
      λ new l here. untied l here,
    )
      where
        untied : Untied t
        untied l here =
            let (old, stored, valid) = sound.linked l data_name here in
            let differs : str_eq data_name data_name ≡ false =
              other_than_new t data_name old missing stored in
            ground (arith, str_eq_refl data_name)

    -- The temporary file goes, and the data is there after a success.
    cleaned-IsSound :
        (t : Disk)
        → IsSound refs t
        → IsSound refs (record t { data_files = erase temp t.data_files })
    cleaned-IsSound t sound = record {
      linked = λ l name here.
          let (old, stored, valid) = sound.linked l name here in
          (
            old,
            lookup-erase temp name t.data_files ∙ rw (other_than_temp t l name sound here) stored,
            valid,
          );
      dir = sound.dir;
    }

    temp_differs : str_eq temp data_name ≡ false
    temp_differs = elim (Bool-cases (str_eq temp data_name)) [
      | inr differs ↦ differs
      | inl same ↦ absurd (
          clash (
            ap (λ (n : Str). refs.is_valid (record { sha256 = true; hex = n }))
              (str_eq→eq temp data_name same)))
    ]
      where
        clash :
            refs.is_valid (record { sha256 = true; hex = temp })
              ≡ refs.is_valid (record { sha256 = true; hex = data_name })
            → ⊥
        clash e = ground (arith, named, unnamed)

    abbrev pub After : Result Bool × Disk → Type 0
    After p = IsSound refs p.1 × ((is_new : Bool) → p.0 ≡ ok is_new → Ready is_new p.1)

    removal-shape :
        (t : Disk)
        → (((place_data refs f temp data_name (some []) t).1 ≡ t)
            × (succeeded (place_data refs f temp data_name (some []) t).0 ≡ false))
          ⊎ (place_data refs f temp data_name (some []) t
              ≡ (ok false, record t { data_files = erase temp t.data_files }))
    unfolding remove_data annotate ◌>>=◌
    removal-shape t = ground arith

    abbrev or_empty : Option Str → Str
    or_empty none = []
    or_empty (some c) = c

    renaming-shape :
        (t : Disk)
        → (((place_data refs f temp data_name none t).1 ≡ t)
            × (succeeded (place_data refs f temp data_name none t).0 ≡ false))
          ⊎ (place_data refs f temp data_name none t ≡ (
            ok true,
            record t {
              data_files =
                  insert data_name (or_empty (lookup temp t.data_files)) (erase temp t.data_files);
            },
          ))
    unfolding rename_data ◌>>=◌
    renaming-shape t = ground arith

    failed-After :
        (p : Result Bool × Disk) (t : Disk)
        → IsSound refs t
        → p.1 ≡ t
        → succeeded p.0 ≡ false
        → After p
    failed-After p t sound same failed = (rw same sound, λ is_new e. absurd (clash is_new e))
      where
        clash : (is_new : Bool) → p.0 ≡ ok is_new → ⊥
        clash is_new e = ground (arith, ap succeeded e)

    place_data-After :
        (t : Disk) (found : Option Str)
        → IsSound refs t
        → lookup data_name t.data_files ≡ found
        → After (place_data refs f temp data_name found t)
    place_data-After t (some content) sound stored = elim (removal-shape t) [
      | inl (same, failed) ↦ failed-After _ t sound same failed
      | inr cleaned ↦ rw cleaned (
        cleaned-IsSound t sound,
        λ is_new e. (
          cleaned-IsSound t sound,
          (content, lookup-erase temp data_name t.data_files ∙ rw temp_differs stored),
          λ new l here. absurd (ground (arith, ok_injective e)),
        ),
      )
    ]
    place_data-After t none sound missing = elim (renaming-shape t) [
      | inl (same, failed) ↦ failed-After _ t sound same failed
      | inr moved ↦ rw moved (
          let ready = renamed-Ready t (or_empty (lookup temp t.data_files)) sound missing in
          (ready.0, λ is_new e. (ready.0, ready.1, λ new. ready.2 refl)))
    ]

    pub rename_if_new_or_delete-After :
        (t : Disk) → IsSound refs t → After (rename_if_new_or_delete refs f temp data_name t)
    unfolding rename_if_new_or_delete resolve
    rename_if_new_or_delete-After t sound =
        rw
          (ok->>= (stat f (data_path data_name)) (place_data refs f temp data_name) t t _
            (stat-resolves t (data_path data_name)))
          (place_data-After t _ sound refl)
