-- ===== src/DiskList/Rollback.antt =====
-- Setting up the disks: all of them, or none that stays.
use mathlib.Core.Path.{subst}
use virtlet.Prelude.{
  ◌≡◌, ◌↔◌, refl, sym, ap, ◌∙◌, Option, List, [], ◌∷◌, ◌++◌, append-nil, append_assoc,
}
use virtlet.Result.{Error, Result, ok, err}
use virtlet.Prog.{◌>>=◌, attempt}
use virtlet.Types.Domain.{DiskDef, FilesystemDef}
use virtlet.World.{World}
use virtlet.DiskList.Defs.{
  DiskItem, of_option, setup_item, setup_from, setup_disks, teardown_quietly, teardown_errors,
  teardown_disks, any_error,
}

module _ (x : World) where
  open x use {W, Volume}

  -- The items are set up one after another, from `w` to `w'`, with these results.
  pub data SetUp : List (DiskItem Volume) → W → List DiskDef → List FilesystemDef → W → Type 0 where
    nothing : {w : W} → SetUp [] w [] [] w
    one_more :
        {item : DiskItem Volume} {items : List (DiskItem Volume)} {d : Option DiskDef}
        {f : Option FilesystemDef} {ds : List DiskDef} {fs : List FilesystemDef} {w w' w'' : W}
        → setup_item x item w ≡ (ok (d, f), w')
        → SetUp items w' ds fs w''
        → SetUp (item ∷ items) w (of_option d ++ ds) (of_option f ++ fs) w''

  -- Every item is torn down, from `w` to `w'`; these are the errors, in order.
  pub data TornDown : List (DiskItem Volume) → W → List Error → W → Type 0 where
    nothing : {w : W} → TornDown [] w [] w
    down :
        {item : DiskItem Volume} {items : List (DiskItem Volume)} {u : Unit {0}} {es : List Error}
        {w w' w'' : W}
        → x.teardown item.volume w ≡ (ok u, w')
        → TornDown items w' es w''
        → TornDown (item ∷ items) w es w''
    failed :
        {item : DiskItem Volume} {items : List (DiskItem Volume)} {e : Error} {es : List Error}
        {w w' w'' : W}
        → x.teardown item.volume w ≡ (err e, w')
        → TornDown items w' es w''
        → TornDown (item ∷ items) w (e ∷ es) w''

  step_ok :
      (item : DiskItem Volume) (done items : List (DiskItem Volume)) (ds : List DiskDef)
      (fs : List FilesystemDef) (d : Option DiskDef) (f : Option FilesystemDef) (w w' : W)
      → setup_item x item w ≡ (ok (d, f), w')
      → setup_from x done ds fs (item ∷ items) w
        ≡ setup_from x (done ++ item ∷ []) (ds ++ of_option d) (fs ++ of_option f) items w'
  unfolding setup_from ◌>>=◌ attempt
  step_ok item done items ds fs d f w w' h = rw h

  step_err :
      (item : DiskItem Volume) (done items : List (DiskItem Volume)) (ds : List DiskDef)
      (fs : List FilesystemDef) (e : Error) (w w' w'' : W)
      → setup_item x item w ≡ (err e, w')
      → teardown_quietly x done w' ≡ (ok tt, w'')
      → setup_from x done ds fs (item ∷ items) w ≡ (err e, w'')
  unfolding setup_from ◌>>=◌ attempt
  step_err item done items ds fs e w w' w'' h t = rw (h, t)

  -- From the middle of the loop: `done` has been set up, and what it gave is at hand.
  from_SetUp :
      {items : List (DiskItem Volume)} {w w' : W} {ds : List DiskDef} {fs : List FilesystemDef}
      → SetUp items w ds fs w'
      → (done rest : List (DiskItem Volume)) (ds0 : List DiskDef) (fs0 : List FilesystemDef)
      → setup_from x done ds0 fs0 (items ++ rest) w
        ≡ setup_from x (done ++ items) (ds0 ++ ds) (fs0 ++ fs) rest w'
  from_SetUp nothing done rest ds0 fs0 = simp append-nil
  from_SetUp (one_more {item} {items} {d} {f} {ds} {fs} {w} {w'} {w''} h t) done rest ds0 fs0 =
      step_ok item done (items ++ rest) ds0 fs0 d f w w' h
      ∙ from_SetUp t (done ++ item ∷ []) rest (ds0 ++ of_option d) (fs0 ++ of_option f)
      ∙ simp append_assoc

  -- Where every item can be set up, the disks and the filesystems are returned in the order of the
  -- items.
  pub setup_disks-SetUp :
      {items : List (DiskItem Volume)} {w w' : W} {ds : List DiskDef} {fs : List FilesystemDef}
      → SetUp items w ds fs w'
      → setup_disks x items w ≡ (ok (ds, fs), w')
  unfolding setup_disks setup_from
  setup_disks-SetUp {items} {w} t =
      ap (λ (l : List (DiskItem Volume)). setup_from x [] [] [] l w) (sym (append-nil items))
      ∙ from_SetUp t [] [] [] []

  teardown_quietly-TornDown :
      {items : List (DiskItem Volume)} {w w' : W} {es : List Error}
      → TornDown items w es w'
      → teardown_quietly x items w ≡ (ok tt, w')
  unfolding teardown_quietly ◌>>=◌ attempt
  teardown_quietly-TornDown nothing = refl
  teardown_quietly-TornDown (down h t) = rw h (teardown_quietly-TornDown t)
  teardown_quietly-TornDown (failed h t) = rw h (teardown_quietly-TornDown t)

  teardown_errors-TornDown :
      {items : List (DiskItem Volume)} {w w' : W} {es : List Error}
      → TornDown items w es w'
      → teardown_errors x items w ≡ (ok es, w')
  unfolding teardown_errors ◌>>=◌ attempt
  teardown_errors-TornDown nothing = refl
  teardown_errors-TornDown (down h t) = rw (h, teardown_errors-TornDown t)
  teardown_errors-TornDown (failed h t) = rw (h, teardown_errors-TornDown t)

  -- Where an item cannot be set up, exactly the items before it are torn down again, in their
  -- order and whatever errors that gives; the items after it are not touched, and the error of the
  -- set-up is returned.
  pub setup_disks_rollback :
      (done rest : List (DiskItem Volume)) (bad : DiskItem Volume) (e : Error) (w w1 w2 w3 : W)
      (ds : List DiskDef) (fs : List FilesystemDef) (es : List Error)
      → SetUp done w ds fs w1
      → setup_item x bad w1 ≡ (err e, w2)
      → TornDown done w2 es w3
      → setup_disks x (done ++ bad ∷ rest) w ≡ (err e, w3)
  unfolding setup_disks
  setup_disks_rollback done rest bad e w w1 w2 w3 ds fs es t h u =
      from_SetUp t [] (bad ∷ rest) [] []
      ∙ step_err bad done rest ds fs e w1 w2 w3 h (teardown_quietly-TornDown u)

  -- Only an empty list of errors is a success.
  any_error_lem :
      (es : List Error) (w : W)
      → ((any_error es w).1 ≡ w) × (((any_error es w).0 ≡ ok tt) ↔ (es ≡ []))
  any_error_lem [] w = (refl, ((λ h. refl), (λ h. refl)))
  any_error_lem (e ∷ es) w = (refl, ((λ h. absurd (cc)), (λ h. absurd (cc))))

  -- Tearing down goes through all the items, errors or not, and succeeds exactly if none of them
  -- gave an error.
  pub teardown_disks-TornDown :
      {items : List (DiskItem Volume)} {w w' : W} {es : List Error}
      → TornDown items w es w'
      → ((teardown_disks x items w).1 ≡ w') × (((teardown_disks x items w).0 ≡ ok tt) ↔ (es ≡ []))
  unfolding teardown_disks ◌>>=◌
  teardown_disks-TornDown {items} {w} {w'} {es} t =
      let run : teardown_disks x items w ≡ any_error es w' = rw (teardown_errors-TornDown t) in
      subst (λ (r : Result (Unit {0}) × W). (r.1 ≡ w') × ((r.0 ≡ ok tt) ↔ (es ≡ []))) (sym run)
        (any_error_lem es w')
