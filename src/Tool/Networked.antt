-- ===== src/Tool/Networked.antt =====
-- What a successful UpdateContainerNetwork has done.
use virtlet.Prelude.{Str, ◌≡◌, ◌≢◌, sym, ap, ◌∙◌, Option, arith}
use virtlet.Result.{Result, ok}
use virtlet.Prog.{◌>>=◌, annotate}
use virtlet.Prog.Laws.{annotate-eq-ok, stepping}
use virtlet.Types.{ContainerInfo, ContainerSideNetwork}
use virtlet.World.{World}
use virtlet.MetaStore.{MetaStore, StoreLaws, with_id}
use virtlet.Tool.State.{Sys, on_world, on_meta}
use virtlet.Tool.State.Halves.{on_meta-parts}
use virtlet.Tool.Wait.Keeps.{KeepsMeta}
use virtlet.Tool.Lifecycle.{
  get_vm_config_from_metadata, set_network, update_container_network, update_disk_images,
}

module _ (x : World) (m : MetaStore) where
  open x use {W}
  open m use {St, retrieve, save}

  -- The record of container `id`, if there is one, has the network, and the others are as before.
  pub record Networked (id : Str) (csn : Option ContainerSideNetwork) (before after : St)
      : Type 0 where
    pub old : Option ContainerInfo
    pub new : Option ContainerInfo
    pub was : (retrieve id before).0 ≡ ok old
    pub marked : set_network csn old ≡ ok new
    pub is : (retrieve id after).0 ≡ ok (with_id id new)
    pub others : (j : Str) → id ≢ j → (retrieve j after).0 ≡ (retrieve j before).0

  module _ (laws : StoreLaws m) where
    update_disk_images-KeepsMeta : (id : Str) → KeepsMeta (update_disk_images x m id)
    unfolding update_disk_images get_vm_config_from_metadata ◌>>=◌ annotate on_meta on_world
    update_disk_images-KeepsMeta id s = let k = laws.pure_retrieve id s.meta in ground arith

    pub update_container_network-Networked :
        (id : Str) (csn : Option ContainerSideNetwork) (s s' : Sys W St)
        → update_container_network x m id csn s ≡ (ok tt, s')
        → Networked id csn s.meta s'.meta
    unfolding update_container_network
    update_container_network-Networked id csn s s' h = stepping _ _ h λ u s1 saved drawn.
        let (saved', _) = on_meta-parts _ s (annotate-eq-ok _ _ s saved) in
        let drawn' = annotate-eq-ok _ _ s1 drawn in
        let last : s'.meta ≡ s1.meta =
          ap (λ (p : Result (Unit {0}) × Sys W St). p.1.meta) (sym drawn')
          ∙ update_disk_images-KeepsMeta id s1 in
        let (old, new, was, marked, is) = laws.saved id (set_network csn) s.meta s1.meta saved' in
        record {
          old = old;
          new = new;
          was = was;
          marked = marked;
          is = ap (λ (t : St). (retrieve id t).0) last ∙ is;
          others = λ j ne.
              ap (λ (t : St). (retrieve j t).0) last
              ∙ laws.kept id j (set_network csn) s.meta s1.meta saved' ne;
        }
