-- ===== src/Tool/Created.antt =====
-- What a successful CreateContainer has done.
use mathlib.Core.Path.{subst, subst₂}
use virtlet.Prelude.{
  ℕ, ◌≤◌, Str, codes, str_eq, Elem, [], take, length, ltb, Bool-cases, inl, inr, ◌≡◌, ◌≢◌, refl,
  sym, ap, ◌∙◌, Option, some, List, arith,
}
use virtlet.Result.{ok, fault, panic, ok_injective}
use virtlet.Prog.Laws.{stepping, unless_ok-eq-ok}
use virtlet.Types.{ContainerInfo, created, VmConfig}
use virtlet.Types.Domain.{Devices, DomainDef, DiskDef, FilesystemDef}
use virtlet.Types.Annotations.{
  VirtletAnnotations, IsUsable, load_annotations, load_annotations-IsUsable,
}
use virtlet.World.{World}
use virtlet.MetaStore.{MetaStore, StoreLaws, with_id}
use virtlet.Tool.State.{Sys}
use virtlet.Tool.State.Halves.{on_world-parts, on_meta-parts, lift-parts, get_state-parts}
use virtlet.Tool.Settings.{VirtualizationConfig, create_domain, add_serial_devices_to_domain}
use virtlet.Tool.Create.{
  create_container, define_and_save, complete, settings_of, domain_name_of, first_13, new_container,
  with_labels, uuid_or, container_ns_uuid,
}

first_13-take : (s p : Str) → first_13 s ≡ ok p → p ≡ take 13 s
unfolding first_13
first_13-take s p h = elim (Bool-cases (ltb (length s) 13)) [
  | inl short ↦ let k : fault panic ≡ ok p = (rw short at h) in absurd (cc)
  | inr long ↦ ok_injective (sym (rw long at h))
]

first_13_long : (s p : Str) → first_13 s ≡ ok p → 13 ≤ length s
unfolding first_13
first_13_long s p h = elim (Bool-cases (ltb (length s) 13)) [
  | inl short ↦ let k : fault panic ≡ ok p = (rw short at h) in absurd (cc)
  | inr long ↦ ground arith
]

module _ (vc : VirtualizationConfig) where
  -- The serial devices are all that is added.
  serial_rest :
      (d : DomainDef) (e : Devices)
      → record (add_serial_devices_to_domain vc d) { devices = e } ≡ record d { devices = e }
  unfolding add_serial_devices_to_domain
  serial_rest d e = elim (Bool-cases (str_eq vc.streamer_socket_path [])) [
    | inl plain ↦ rw plain refl
    | inr socket ↦ rw socket refl
  ]

module _ (x : World) (m : MetaStore) (vc : VirtualizationConfig) where
  open x use {W, Domain, Volume}
  open m use {St, retrieve}

  abbrev meta : Sys W St → St
  meta s = s.meta

  -- The container `id` after CreateContainer: libvirt has defined its domain, under the name that
  -- the garbage collector recognizes, with the key of the pod's network and as many CPUs as the
  -- annotations ask for; the store has the container's record with the whole config; the other
  -- records are as before.
  pub record Created (config : VmConfig) (key id : Str) (before after : Sys W St) : Type 0 where
    pub definition : DomainDef
    pub domain : Domain
    pub earlier : W
    pub later : W
    pub defined : x.define_domain definition earlier ≡ (ok domain, later)
    pub named : definition.name ≡ domain_name_of (take 13 id) config.name
    pub long : 13 ≤ length id
    pub has_uuid : definition.uuid ≡ id
    pub stored : ContainerInfo
    pub is : (retrieve id after.meta).0 ≡ ok (some stored)
    pub has_id : stored.id ≡ id
    pub state : stored.state ≡ created
    pub others : (j : Str) → id ≢ j → (retrieve j after.meta).0 ≡ (retrieve j before.meta).0
    pub annotations : VirtletAnnotations
    pub loaded :
        load_annotations x.parse_pod_annotations config.pod_namespace config.pod_annotations
        ≡ ok annotations
    pub usable : IsUsable annotations
    pub vcpus : definition.vcpu ≡ annotations.vcpu_count
    pub net_key : Elem (codes "VIRTLET_NET_KEY", key) definition.envs
    pub kept :
        record stored.config { container_labels = config.container_labels }
        ≡ record config { parsed_annotations = some annotations; domain_uuid = id }

  complete_rest :
      (d : DomainDef) (defs : List DiskDef × List FilesystemDef) (e : Devices)
      → record (complete x m vc d defs) { devices = e } ≡ record d { devices = e }
  unfolding complete
  complete_rest d (disks, filesystems) e =
      serial_rest vc
        (record d { devices = record d.devices { disks = disks; filesystems = filesystems } }) e

  abbrev new_record : ℕ → VmConfig → Str → ContainerInfo
  new_record now config id = record {
    id = id;
    name = config.name;
    created_at = now;
    started_at = 0;
    state = created;
    config = config;
  }

  saved_new :
      StoreLaws m
      → (id : Str) (now : ℕ) (config : VmConfig) (before after : St)
      → m.save id (new_container now config) before ≡ (ok tt, after)
      → (retrieve id after).0 ≡ ok (some (new_record now config id))
  saved_new laws id now config before after h =
      let (old, new, had, gave, is) = laws.saved id (new_container now config) before after h in
      is ∙ ap (λ (n : Option ContainerInfo). ok (with_id id n)) (sym (ok_injective gave))

  -- When CreateContainer succeeds, libvirt has defined a domain whose UUID is the ID that it
  -- returned and whose name begins with the part of the ID that the garbage collector looks for;
  -- it has the key of the network that was given, and as many CPUs as the pod's annotations ask for,
  -- which were loaded and are usable; the store has the container's record under that ID, in the
  -- state "created" and with the config of the request, but for the labels that are added and the
  -- annotations and the ID that are filled in; and every other record is as before.
  pub create_container-Created :
      StoreLaws m
      → (config : VmConfig) (key id : Str) (s s' : Sys W St)
      → create_container x m vc config key s ≡ (ok id, s')
      → Created config key id s s'
  unfolding create_container with_labels define_and_save settings_of create_domain
  create_container-Created laws config key id s s' h = stepping _ _ h λ va s1 loaded h1.
      stepping _ _ h1 λ prefix s2 cut h2. stepping _ _ h2 λ quota s3 divided h3.
        stepping _ _ h3 λ items s4 listed h4. stepping _ _ h4 λ defs s5 ready h5.
          stepping _ _ h5 λ v s6 done h6.
            stepping _ _ (unless_ok-eq-ok _ _ s5 done) λ domain s7 defined h7.
              stepping _ _ h7 λ u s8 written h8. stepping _ _ h8 λ t s9 read saved.
                let (va_is, same1) = lift-parts _ s loaded in
                let (prefix_is, same2) = lift-parts _ s1 cut in
                let (_, same3) = lift-parts _ s2 divided in
                let (_, same4) = on_world-parts _ s3 listed in
                let (_, same5) = on_world-parts _ s4 ready in
                let (defined', same7) = on_world-parts _ s5 defined in
                let (_, same8) = on_world-parts _ s7 written in
                let (now, same9) = get_state-parts s8 read in
                let (saved', _) = on_meta-parts _ s9 saved in
                let metas : s.meta ≡ s9.meta =
                  ap meta same1
                  ∙ ap meta same2
                  ∙ ap meta same3
                  ∙ same4
                  ∙ same5
                  ∙ same7
                  ∙ same8
                  ∙ ap meta same9 in
                let uuid =
                  uuid_or va.system_uuid (x.new_uuid5 container_ns_uuid config.pod_sandbox_id) in
                let d =
                  create_domain (settings_of vc config va key prefix quota uuid)
                    (record config { parsed_annotations = some va; domain_uuid = uuid }) va in
                let rest = complete_rest d defs d.devices in
                let there : Created config key uuid s s6 = record {
                  definition = complete x m vc d defs;
                  domain = domain;
                  earlier = s5.world;
                  later = s7.world;
                  defined = defined';
                  named =
                      ap (λ (t : DomainDef). t.name) rest
                      ∙ ap (λ p. domain_name_of p config.name)
                          (first_13-take uuid prefix prefix_is);
                  long = first_13_long uuid prefix prefix_is;
                  has_uuid = ap (λ (t : DomainDef). t.uuid) rest;
                  stored = _;
                  is = saved_new laws uuid _ _ s9.meta s6.meta saved';
                  has_id = refl;
                  state = refl;
                  others = λ j ne.
                      laws.kept uuid j _ s9.meta s6.meta saved' ne
                      ∙ ap (λ (a : St). (retrieve j a).0) (sym metas);
                  annotations = va;
                  loaded = va_is;
                  vcpus = ap (λ (t : DomainDef). t.vcpu) rest;
                  net_key =
                      subst (Elem (codes "VIRTLET_NET_KEY", key))
                        (sym (ap (λ (t : DomainDef). t.envs) rest)) (inr (inl refl));
                  kept = refl;
                  usable =
                      load_annotations-IsUsable x.parse_pod_annotations config.pod_namespace
                        config.pod_annotations va va_is;
                } in
                subst₂ (λ i t. Created config key i s t) (ok_injective (λ i. (h6 i).0))
                  (λ i. (h6 i).1) there
