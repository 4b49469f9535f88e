-- ===== src/Tests/Roots.antt =====
-- A pool that makes one container's root volume, which the garbage collector keeps.
use virtlet.Prelude.{
  none, Str, codes, str_eq, str_eq→eq, Bool, true, false, inl, some, [], ◌∷◌, ◌++◌, ◌≡◌, refl, sym,
  ap, ◌∙◌,
}
use virtlet.Result.{Result, ok, err, errorf, ok_injective}
use virtlet.Prog.{annotate, ◌>>=◌}
use virtlet.Types.{VmConfig}
use virtlet.Volumes.Root.{Owner, create_volume, inject, root_size, setup, volume_name}
use virtlet.Gc.Names.{base, is_qcow2_volume_of, is_root_volume_of, root_prefix, virtlet_prefix}
use virtlet.Gc.Collect.{orphan_volume}
use virtlet.Gc.Roots.{NamesFile, orphan_volume-setup}
use virtlet.Tests.Machine.{machine, fresh, parsed}
use virtlet.Tests.Shelf.{some_config}
use virtlet.Tests.Orphans.{root_path, root_path-base, vm_id}

abbrev made : Bool → Result Str
made true = ok root_path
made false = err (errorf "no space")

abbrev owner : Owner
owner = record {
  D = Unit;
  StoragePool = Unit;
  StorageVolume = Str;
  image_info = λ s d. (ok (codes "/images/a", none, 50), d);
  storage_pool = λ d. (ok tt, d);
  create_storage_vol = λ pool new d. (made (str_eq new.name (root_prefix ++ vm_id)), d);
  remove_volume_by_name = λ pool name d. (ok tt, d);
  volume_path = λ vol d. (ok vol, d);
  put_files = λ p fs d. (ok tt, d);
  eval_symlinks = λ p d. (ok p, d);
}

made-ok : (b : Bool) (vol : Str) → made b ≡ ok vol → (b ≡ true) × (root_path ≡ vol)
made-ok true vol h = (refl, ok_injective h)
made-ok false vol h = absurd (cc)

owner-NamesFile : NamesFile owner
owner-NamesFile = λ pool new vol path d d' e e' created located.
    let (named, is) = made-ok (str_eq new.name (root_prefix ++ vm_id)) vol (λ i. (created i).0) in
    ap base (sym (ok_injective (λ i. (located i).0)))
    ∙ (ap base (sym is) ∙ (root_path-base ∙ sym (str_eq→eq new.name (root_prefix ++ vm_id) named)))

abbrev config : VmConfig
config = record some_config { domain_uuid = vm_id; parsed_annotations = some parsed }

sets_up_root : setup owner config tt ≡ (ok root_path, tt)
unfolding setup create_volume inject root_size volume_name ◌>>=◌ annotate str_eq
sets_up_root = refl

orphan_volume-setup_example :
    (orphan_volume machine root_prefix is_root_volume_of (vm_id ∷ []) root_path fresh
      ≡ (ok [], fresh))
    × (orphan_volume machine virtlet_prefix is_qcow2_volume_of (vm_id ∷ []) root_path fresh
        ≡ (ok [], fresh))
orphan_volume-setup_example =
    orphan_volume-setup owner owner-NamesFile machine config tt tt root_path (vm_id ∷ []) root_path
      fresh fresh sets_up_root (inl refl) refl
