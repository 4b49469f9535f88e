-- ===== src/Gc/Roots.antt =====
-- gc.go and root_volumesource.go: a container's root volume is no orphan.
use virtlet.Prelude.{Str, List, Elem, ◌≡◌, ◌∙◌, sym, ap, []}
use virtlet.Result.{ok, ok_injective}
use virtlet.Prog.Laws.{annotate-eq-ok, stepping}
use virtlet.World.{World}
use virtlet.Types.{VmConfig}
use virtlet.Volumes.Root.{NewVolume, Owner, create_volume, setup, volume_name}
use virtlet.Gc.Names.{base, is_qcow2_volume_of, is_root_volume_of, root_prefix, virtlet_prefix}
use virtlet.Gc.Collect.{orphan_volume}
use virtlet.Gc.Safety.{orphan_volume_keeps_root}

-- A volume that was created in a pool is a file with the volume's name.
abbrev pub NamesFile : Owner → Type 0
NamesFile o =
    (pool : o.StoragePool) (new : NewVolume) (vol : o.StorageVolume) (path : Str) (d d' e e' : o.D)
    → o.create_storage_vol pool new d ≡ (ok vol, d')
    → o.volume_path vol e ≡ (ok path, e')
    → base path ≡ new.name

module _ (o : Owner) (names : NamesFile o) where
  open o use {D}

  setup-names :
      (c : VmConfig) (d d' : D) (path : Str)
      → setup o c d ≡ (ok path, d')
      → base path ≡ volume_name c
  unfolding setup create_volume
  setup-names c d d' path run = stepping _ _ run λ vol d1 created run1.
      stepping _ _ run1 λ p d2 located run2. stepping _ _ run2 λ u d3 injected end.
        stepping _ _ created λ info e1 asked created1. stepping _ _ created1 λ pool e2 opened made.
          ap base (sym (ok_injective (λ i. (end i).0)))
          ∙ names pool _ vol p e2 d1 d1 d2 made (annotate-eq-ok _ _ d1 located)

  -- The root volume that a successful Setup has made for a container is kept by both collectors
  -- that go through the storage pool, while the container's ID is listed, whatever volume object
  -- libvirt lists it as.
  pub orphan_volume-setup :
      (x : World) (c : VmConfig) (d d' : D) (path : Str) (ids : List Str) (v : x.PoolVolume)
      (w w' : x.W)
      → setup o c d ≡ (ok path, d')
      → Elem c.domain_uuid ids
      → x.path v w ≡ (ok path, w')
      → (orphan_volume x root_prefix is_root_volume_of ids v w ≡ (ok [], w'))
        × (orphan_volume x virtlet_prefix is_qcow2_volume_of ids v w ≡ (ok [], w'))
  unfolding volume_name
  orphan_volume-setup x c d d' path ids v w w' run member located =
      orphan_volume_keeps_root x ids c.domain_uuid path v w w' member located
        (setup-names c d d' path run)
