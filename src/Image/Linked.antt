-- ===== src/Image/Linked.antt =====
-- Making the link of an image, and with it the whole of placing an image.
use virtlet.Prelude.{
  Str, str_eq, Bool, Bool-cases, inl, inr, true, false, ◌≡◌, ◌⊎◌, refl, sym, ap, ◌∙◌, Option, none,
  some, [], arith,
}
use virtlet.Prelude.Dict.{lookup, insert, lookup-insert}
use virtlet.Result.{Error, Result, caught, ok, err, fault, errorf, succeeded}
use virtlet.Prog.{pure, raise, continue, attempt, annotate, ◌>>=◌}
use virtlet.Prog.Laws.{ok->>=, wrapped-eq-ok, annotate-eq-ok}
use virtlet.Prog.After.{>>=-after}
use virtlet.Image.Names.{References, link_file_name}
use virtlet.Image.Files.{
  to_data, Entry, symlink, link_path, Disk, Faults, stat, resolve, remove_data, make_link,
  mkdir_links,
}
use virtlet.Image.Change.{
  Getter, rename_if_new_or_delete, clear_link, make_way, linked_or_undone, link_image, place_image,
}
use virtlet.Image.Listing.{IsReadable}
use virtlet.Image.Sound.{IsSound, remove_untied-IsSound}
use virtlet.Image.Keeps.{remove_image_if_its_not_needed-IsSound}
use virtlet.Image.Shrinks.{remove_image_if_its_not_needed-Shrinks}
use virtlet.Image.Placed.{Ready, stat-resolves, rename_if_new_or_delete-After}

module _ (refs : References) (f : Faults) (reads : IsReadable f) (getter : Getter refs f)
    (data_name : Str)
    (named : refs.is_valid (record { sha256 = true; hex = data_name }) ≡ true) where
  -- After the link directory was made.
  abbrev pub Ready2 : Bool → Disk → Type 0
  Ready2 is_new t = Ready refs f reads getter data_name named is_new t × (t.has_link_dir ≡ true)

  make_way-Ready :
      (is_new : Bool) (name : Str) (t : Disk)
      → Ready2 is_new t
      → Ready2 is_new (make_way refs f getter name data_name t).1
  unfolding make_way annotate
  make_way-Ready is_new name t ready =
      rw
        (ok->>=
          (annotate "error checking for symlink" (stat f (link_path (link_file_name refs name))))
          (clear_link refs f getter name data_name) t t
          (resolve t (link_path (link_file_name refs name)))
          (rw (
            stat-resolves refs f reads getter data_name named t
              (link_path (link_file_name refs name)))))
        (cleared (resolve t (link_path (link_file_name refs name))))
    where
      cleared :
          (found : Option Str) → Ready2 is_new (clear_link refs f getter name data_name found t).1
      cleared none = ready
      cleared (some content) =
          let (kept, same, made) =
            remove_image_if_its_not_needed-Shrinks refs f reads getter t data_name name in
          let (sound, (old, stored), untied) = ready.0 in
          (
            (
              remove_image_if_its_not_needed-IsSound refs f reads getter t name data_name sound,
              (old, same ∙ stored),
              λ new l here. untied new l (kept l _ here),
            ),
            made ∙ ready.1,
          )

  make_link-shape :
      (t : Disk) (link : Str)
      → (((make_link f (to_data data_name) link t).1 ≡ t)
          × (succeeded (make_link f (to_data data_name) link t).0 ≡ false))
        ⊎ (make_link f (to_data data_name) link t
            ≡ (ok tt, record t { links = insert link (symlink (to_data data_name)) t.links }))
  unfolding make_link ◌>>=◌
  make_link-shape t link = ground arith

  abbrev data_name_of : Option Entry → Str
  data_name_of (some (symlink (to_data n))) = n
  data_name_of _ = []

  linked-IsSound :
      (is_new : Bool) (link : Str) (t : Disk)
      → Ready2 is_new t
      → IsSound refs (record t { links = insert link (symlink (to_data data_name)) t.links })
  linked-IsSound is_new link t ((sound, (content, stored), untied), made) = record {
    linked = λ l name here. elim (Bool-cases (str_eq link l)) [
      | inl same ↦
          (let there : lookup l (insert link (symlink (to_data data_name)) t.links)
                ≡ some (symlink (to_data data_name)) =
              lookup-insert link l (symlink (to_data data_name)) t.links ∙ rw same in
            let equal : data_name ≡ name = ap data_name_of (sym there ∙ here) in
            (
              content,
              ap (λ (n : Str). lookup n t.data_files) (sym equal) ∙ stored,
              ap (λ (n : Str). refs.is_valid (record { sha256 = true; hex = n })) (sym equal)
                  ∙ named,
            ))
      | inr differs ↦
          sound.linked l name
            (ground (arith, lookup-insert link l (symlink (to_data data_name)) t.links, here))
    ];
    dir = λ l e here. made;
  }

  undone-IsSound :
      (is_new : Bool) (e : Error) (t : Disk)
      → Ready2 is_new t
      → IsSound refs (linked_or_undone refs f is_new data_name (err e) t).1
  unfolding attempt
  undone-IsSound true e t ready =
      let gone = remove_untied-IsSound refs f reads t data_name ready.0.0 (ready.0.2 refl) in
      >>=-after (IsSound refs) (λ _. raise (errorf "error creating symbolic link"))
        (attempt (remove_data f data_name)) t gone λ r e2. gone
  undone-IsSound false e t ready =
      >>=-after (IsSound refs) (λ _. raise (errorf "error creating symbolic link"))
        (attempt (pure tt)) t ready.0.0 λ r e2. ready.0.0

  settled-IsSound :
      (is_new : Bool) (r : Result (Unit {0})) (t : Disk)
      → succeeded r ≡ false
      → Ready2 is_new t
      → IsSound refs (continue (linked_or_undone refs f is_new data_name) (caught r) t).1
  settled-IsSound is_new (ok u) t failed ready = absurd (ground (arith, failed))
  settled-IsSound is_new (err e) t failed ready = undone-IsSound is_new e t ready
  settled-IsSound is_new (fault x) t failed ready = ready.0.0

  link_image-IsSound :
      (is_new missing : Bool) (name : Str) (t : Disk)
      → Ready2 is_new t
      → IsSound refs (link_image refs f data_name name is_new missing t).1
  unfolding link_image attempt ◌>>=◌
  link_image-IsSound is_new false name t ready = ready.0.0
  link_image-IsSound is_new true name t ready =
      elim (make_link-shape t (link_file_name refs name)) [
        | inl (same, failed) ↦ rw same (settled-IsSound is_new _ t failed ready)
        | inr made ↦ rw made (linked-IsSound is_new (link_file_name refs name) t ready)
      ]

  mkdir_links-Ready :
      (is_new : Bool) (t : Disk)
      → Ready refs f reads getter data_name named is_new t
      → IsSound refs (mkdir_links f t).1
  unfolding mkdir_links ◌>>=◌
  mkdir_links-Ready is_new t ready = elim (mkdir_links-shape t) [
    | inl (same, failed) ↦ rw same ready.0
    | inr made ↦ rw made (directory_made t ready.0)
  ]
    where
      directory_made : (t : Disk) → IsSound refs t → IsSound refs (record t { has_link_dir = true })
      directory_made t sound = record { linked = sound.linked; dir = λ l e here. refl }

      mkdir_links-shape :
          (t : Disk)
          → (((mkdir_links f t).1 ≡ t) × (succeeded (mkdir_links f t).0 ≡ false))
            ⊎ (mkdir_links f t ≡ (ok tt, record t { has_link_dir = true }))
      mkdir_links-shape t = ground arith

  mkdir_links-Ready2 :
      (is_new : Bool) (t : Disk) (u : Unit {0})
      → mkdir_links f t ≡ (ok u, (mkdir_links f t).1)
      → Ready refs f reads getter data_name named is_new t
      → Ready2 is_new (mkdir_links f t).1
  unfolding mkdir_links ◌>>=◌
  mkdir_links-Ready2 is_new t u e ready =
      rw (made e)
        (((record { linked = ready.0.linked; dir = λ l e2 here. refl }), ready.1, ready.2), refl)
    where
      made :
          mkdir_links f t ≡ (ok u, (mkdir_links f t).1)
          → (mkdir_links f t).1 ≡ record t { has_link_dir = true }
      made e = ground (arith, e)

  module _ (temp : Str)
      (unnamed : refs.is_valid (record { sha256 = true; hex = temp }) ≡ false) where
    -- Placing an image keeps every link leading to its data, whatever fails on the way.
    pub place_image-IsSound :
        (name : Str) (d : Disk)
        → IsSound refs d
        → IsSound refs (place_image refs f getter temp data_name name d).1
    unfolding place_image annotate
    place_image-IsSound name d sound =
        let (kept, arrived) =
          rename_if_new_or_delete-After refs f reads getter data_name named temp unnamed d sound in
        >>=-after (IsSound refs) _
          (annotate "error placing the image" (rename_if_new_or_delete refs f temp data_name)) d
          kept
          λ is_new e1.
            let ready = arrived is_new (
              wrapped-eq-ok "error placing the image"
                (rename_if_new_or_delete refs f temp data_name d).0 (λ i. (e1 i).0)) in
            >>=-after (IsSound refs) _ (annotate "mkdir" (mkdir_links f)) _
              (mkdir_links-Ready is_new _ ready)
              λ u e2.
                let ready2 =
                  mkdir_links-Ready2 is_new _ u (annotate-eq-ok "mkdir" (mkdir_links f) _ e2)
                    ready in
                >>=-after (IsSound refs) _ (make_way refs f getter name data_name) _
                  (make_way-Ready is_new name _ ready2).0.0
                  λ missing e3.
                    link_image-IsSound is_new missing name _ (make_way-Ready is_new name _ ready2)
