-- ===== src/DiskList/Drivers.antt =====
-- The drivers that newDiskList gives to the disks: as many as there are letters, no name twice.
use mathlib.Core.Path.{subst}
use native.Mathlib.Decide.{dec_lt}
use virtlet.Prelude.{
  ℕ, zero, suc, ◌+◌, ◌≤◌, ◌<◌, Str, true, false, Option, none, some, List, [], ◌∷◌, map, ◌≡◌, ◌≢◌,
  refl, sym, ap, ◌∙◌, All, arith, Bool-cases, inl, inr,
}
use virtlet.Result.{Error, Result, ok, err, errorf}
use virtlet.World.{World}
use virtlet.Disk.Driver.{
  DiskDriver, DiskDriverFactory, virtio_blk_driver_factory, scsi_driver_factory, virtio_blk, scsi,
  make_driver, dev_name, min_block_dev_char,
}
use virtlet.DiskList.Defs.{DiskItem, assign_drivers, with_item}

-- How many disks a driver can have.
abbrev pub limit : DiskDriverFactory → ℕ
limit virtio_blk_driver_factory = 21
limit scsi_driver_factory = 26

abbrev driver_at : DiskDriverFactory → ℕ → DiskDriver
driver_at virtio_blk_driver_factory n = virtio_blk n (min_block_dev_char + n)
driver_at scsi_driver_factory n = scsi n (min_block_dev_char + n)

make_driver_below :
    (f : DiskDriverFactory) (n : ℕ) → n < limit f → make_driver f n ≡ ok (driver_at f n)
unfolding make_driver
make_driver_below virtio_blk_driver_factory n h = ground arith
make_driver_below scsi_driver_factory n h = ground arith

make_driver_above :
    (f : DiskDriverFactory) (n : ℕ) → limit f ≤ n → (e : Error) × (make_driver f n ≡ err e)
unfolding make_driver
make_driver_above virtio_blk_driver_factory n h =
    (errorf "too many virtio block devices", ground arith)
make_driver_above scsi_driver_factory n h = (errorf "too many scsi block devices", ground arith)

-- The names of `k` disks from the `n`-th on.
abbrev pub letters : DiskDriverFactory → ℕ → ℕ → List Str
letters f n zero = []
letters f n (suc k) = dev_name (driver_at f n) ∷ letters f (suc n) k

abbrev pub Distinct : List Str → Type 0
Distinct [] = Unit
Distinct (s ∷ l) = All (λ t. t ≢ s) l × Distinct l

dev_name-ne :
    (f : DiskDriverFactory) (i j : ℕ) → i < j → dev_name (driver_at f j) ≢ dev_name (driver_at f i)
unfolding dev_name
dev_name-ne virtio_blk_driver_factory i j h = λ e. ground arith
dev_name-ne scsi_driver_factory i j h = λ e. ground arith

letters-ne :
    (f : DiskDriverFactory) (i n k : ℕ)
    → i < n
    → All (λ t. t ≢ dev_name (driver_at f i)) (letters f n k)
letters-ne f i n zero h = tt
letters-ne f i n (suc k) h = (dev_name-ne f i n h, letters-ne f i (suc n) k (omega arith))

letters-Distinct : (f : DiskDriverFactory) (n k : ℕ) → Distinct (letters f n k)
letters-Distinct f n zero = tt
letters-Distinct f n (suc k) =
    (letters-ne f n (suc n) k (omega arith), letters-Distinct f (suc n) k)

module _ (x : World) where
  open x use {W, Volume, is_disk}

  abbrev pub count_disks : List Volume → ℕ
  count_disks [] = 0
  count_disks (v ∷ vs) = let n = count_disks vs in elim (is_disk v) [ true ↦ suc n | false ↦ n ]

  abbrev names_of : Option DiskDriver → List Str → List Str
  names_of none l = l
  names_of (some d) l = dev_name d ∷ l

  -- The device names of the items that are disks, in order.
  abbrev pub device_names : List (DiskItem Volume) → List Str
  device_names [] = []
  device_names (item ∷ items) = names_of item.driver (device_names items)

  -- What is proved of the items that come out for the volumes `vs` from disk number `n` on: the
  -- volumes are the same ones, in order, and the disks have consecutive letters.
  pub record Assigned (f : DiskDriverFactory) (n : ℕ) (vs : List Volume)
      (items : List (DiskItem Volume)) : Type 0 where
    pub volumes : map (λ (i : DiskItem Volume). i.volume) items ≡ vs
    pub names : device_names items ≡ letters f n (count_disks vs)

  assign_filesystem :
      (f : DiskDriverFactory) (n : ℕ) (v : Volume) (vs : List Volume)
      → is_disk v ≡ false
      → assign_drivers x f n (v ∷ vs)
        ≡ with_item (record { driver = none; volume = v }) (assign_drivers x f n vs)
  unfolding assign_drivers
  assign_filesystem f n v vs e = ground arith

  assign_disk :
      (f : DiskDriverFactory) (n : ℕ) (v : Volume) (vs : List Volume) (d : DiskDriver)
      → is_disk v ≡ true
      → make_driver f n ≡ ok d
      → assign_drivers x f n (v ∷ vs)
        ≡ with_item (record { driver = some d; volume = v }) (assign_drivers x f (suc n) vs)
  unfolding assign_drivers
  assign_disk f n v vs d e h = ground arith

  assign_too_many :
      (f : DiskDriverFactory) (n : ℕ) (v : Volume) (vs : List Volume) (x' : Error)
      → is_disk v ≡ true
      → make_driver f n ≡ err x'
      → assign_drivers x f n (v ∷ vs) ≡ err x'
  unfolding assign_drivers
  assign_too_many f n v vs x' e h = ground arith

  count-disk :
      (v : Volume) (vs : List Volume)
      → is_disk v ≡ true
      → count_disks (v ∷ vs) ≡ suc (count_disks vs)
  count-disk v vs e = ground arith

  count-filesystem :
      (v : Volume) (vs : List Volume) → is_disk v ≡ false → count_disks (v ∷ vs) ≡ count_disks vs
  count-filesystem v vs e = ground arith

  abbrev WellAssigned : DiskDriverFactory → ℕ → List Volume → Type 0
  WellAssigned f n vs =
      (items : List (DiskItem Volume)) × (assign_drivers x f n vs ≡ ok items)
      × Assigned f n vs items

  with_filesystem :
      (f : DiskDriverFactory) (n : ℕ) (v : Volume) (vs : List Volume)
      → is_disk v ≡ false
      → WellAssigned f n vs
      → WellAssigned f n (v ∷ vs)
  with_filesystem f n v vs e (items, h, a) = (
    record { driver = none; volume = v } ∷ items,
    assign_filesystem f n v vs e ∙ ap (with_item (record { driver = none; volume = v })) h,
    record {
      volumes = ap (λ l. v ∷ l) a.volumes;
      names = a.names ∙ ap (letters f n) (sym (count-filesystem v vs e));
    },
  )

  with_disk :
      (f : DiskDriverFactory) (n : ℕ) (v : Volume) (vs : List Volume)
      → is_disk v ≡ true
      → n < limit f
      → WellAssigned f (suc n) vs
      → WellAssigned f n (v ∷ vs)
  with_disk f n v vs e below (items, h, a) = (
    record { driver = some (driver_at f n); volume = v } ∷ items,
    assign_disk f n v vs (driver_at f n) e (make_driver_below f n below)
        ∙ ap (with_item (record { driver = some (driver_at f n); volume = v })) h,
    record {
      volumes = ap (λ l. v ∷ l) a.volumes;
      names =
          ap (λ l. dev_name (driver_at f n) ∷ l) a.names
          ∙ ap (letters f n) (sym (count-disk v vs e));
    },
  )

  well_assigned :
      (f : DiskDriverFactory) (n : ℕ) (vs : List Volume)
      → n + count_disks vs ≤ limit f
      → WellAssigned f n vs
  unfolding assign_drivers
  well_assigned f n [] h = ([], refl, record { volumes = refl; names = refl })
  well_assigned f n (v ∷ vs) h = elim (Bool-cases (is_disk v)) [
    | inl e ↦
        let c = count-disk v vs e in
        with_disk f n v vs e (omega arith) (well_assigned f (suc n) vs (omega arith))
    | inr e ↦
        let c = count-filesystem v vs e in
        with_filesystem f n v vs e (well_assigned f n vs (omega arith))
  ]

  -- With no more disks than the driver has letters, every volume gets an item, in order, and the
  -- disks get the device names vda, vdb, … or sda, sdb, …, no two of them equal.
  pub assign_drivers-Assigned :
      (f : DiskDriverFactory) (vs : List Volume)
      → count_disks vs ≤ limit f
      → (items : List (DiskItem Volume)) × (assign_drivers x f 0 vs ≡ ok items)
        × Assigned f 0 vs items
        × Distinct (device_names items)
  assign_drivers-Assigned f vs h =
      let (items, e, a) = well_assigned f 0 vs (omega arith) in
      (items, e, a, subst Distinct (sym a.names) (letters-Distinct f 0 (count_disks vs)))

  with_item-err :
      (item : DiskItem Volume) (r : Result (List (DiskItem Volume)))
      → (e : Error) × (r ≡ err e)
      → (e : Error) × (with_item item r ≡ err e)
  with_item-err item r (e, h) = (e, ap (with_item item) h)

  too_many :
      (f : DiskDriverFactory) (n : ℕ) (vs : List Volume)
      → n ≤ limit f
      → limit f < n + count_disks vs
      → (e : Error) × (assign_drivers x f n vs ≡ err e)
  too_many f n [] room h = absurd (omega arith)
  too_many f n (v ∷ vs) room h = elim (Bool-cases (is_disk v)) [
    | inr e ↦
        let c = count-filesystem v vs e in
        rw (assign_filesystem f n v vs e) (with_item-err _ _ (too_many f n vs room (omega arith)))
    | inl e ↦
        let c = count-disk v vs e in
        elim (dec_lt n (limit f)) [
          | yes below ↦
              rw (assign_disk f n v vs _ e (make_driver_below f n below))
                (with_item-err _ _ (too_many f (suc n) vs below (omega arith)))
          | no full ↦
              let (x', refused) = make_driver_above f n (omega arith) in
              (x', assign_too_many f n v vs x' e refused)
        ]
  ]

  -- With more disks than letters newDiskList fails with an error.
  pub assign_drivers_too_many :
      (f : DiskDriverFactory) (vs : List Volume)
      → limit f < count_disks vs
      → (e : Error) × (assign_drivers x f 0 vs ≡ err e)
  assign_drivers_too_many f vs h = too_many f 0 vs (omega arith) (omega arith)
