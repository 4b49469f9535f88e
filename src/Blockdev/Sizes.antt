-- ===== src/Blockdev/Sizes.antt =====
-- blockdev.go: the room for an image behind the first sector.
use virtlet.Prelude.{
  ℕ, ◌+◌, ◌-◌, ◌*◌, ◌^◌, ◌≤◌, ◌≡◌, Str, has_prefix, Bool-cases, inl, inr, ltb, ap, ◌∙◌, arith,
}
use virtlet.Result.{Result, ok, err, errorf}
use virtlet.Prog.Laws.{stepping}
use virtlet.Blockdev.Defs.{
  DevOs, block_dev_size_in_sectors, create_mapping, logical_device_prefix, map_device, min_sectors,
  sector_size,
}

min_sectors-fits :
    (size n : ℕ) → size + sector_size ≤ 2 ^ 64 → min_sectors size ≤ n → size ≤ (n - 1) * sector_size
unfolding min_sectors
min_sectors-fits size n small enough = omega arith

module _ (os : DevOs) where
  open os use {D}

  -- Map succeeds only where the number of sectors that blockdev has printed leaves room for the
  -- whole image behind the first sector, for an image that is not within a sector of 2 ^ 64 bytes.
  pub map_device-fits :
      (path dm_name : Str) (size : ℕ) (d d' : D)
      → size + sector_size ≤ 2 ^ 64
      → map_device os path dm_name size d ≡ (ok tt, d')
      → (n : ℕ) × ((block_dev_size_in_sectors os path d).0 ≡ ok n)
        × (size ≤ (n - 1) * sector_size)
        × (create_mapping os path dm_name n (block_dev_size_in_sectors os path d).1 ≡ (ok tt, d'))
  unfolding map_device
  map_device-fits path dm_name size d d' small run =
      elim (Bool-cases (has_prefix dm_name logical_device_prefix)) [
        | inr other ↦
            let k : err (errorf "bad logical device name") ≡ ok tt = λ i. ((rw other at run) i).0 in
            absurd (cc)
        | inl prefixed ↦ stepping _ _ (rw prefixed at run) λ n d1 sized rest.
            elim (Bool-cases (ltb n (min_sectors size))) [
              | inl short ↦
                  let k : err (errorf "block device too small for the image") ≡ ok tt =
                    λ i. ((rw short at rest) i).0 in
                  absurd (cc)
              | inr enough ↦ (
                n,
                ap (λ (p : Result ℕ × D). p.0) sized,
                min_sectors-fits size n small (ground arith),
                ap (λ (p : Result ℕ × D). create_mapping os path dm_name n p.1) sized
                    ∙ (rw enough at rest),
              )
            ]
      ]
