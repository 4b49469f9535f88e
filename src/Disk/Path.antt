-- ===== src/Disk/Path.antt =====
-- diskdriver.go: finding disks and controllers in a domain, and the paths of a disk inside the VM.
use virtlet.Prelude.{
  ℕ, zero, suc, Str, codes, str_eq, Bool, true, false, Option, none, some, List, [], ◌∷◌, ◌++◌, ltb,
  ◌==◌, if◌then◌else◌, length, get_elem?,
}
use virtlet.Result.{Result, ok, err, fault, panic, errorf, wrapped, ◌>>=◌}
use virtlet.Types.Domain.{DomainDef, DiskDef, DiskTarget, Controller, Address, PciAddress}
use virtlet.Disk.Format.{hex}

pub record DiskPath : Type 0 where
  pub dev_path : Str
  pub sysfs_path : Str

has_dev : Str → Option DiskTarget → Bool
has_dev dev none = false
has_dev dev (some t) = str_eq t.dev dev

find_in : Str → List DiskDef → Result DiskDef
find_in dev [] = err (errorf "disk not found in the domain")
find_in dev (d ∷ ds) = let rest = find_in dev ds in if has_dev dev d.target then ok d else rest

unfoldable pub find_disk : DomainDef → Str → Result DiskDef
unfolding find_in has_dev
find_disk domain_def dev = find_in dev domain_def.devices.disks

index_of : Controller → ℕ
index_of c = elim c.index [ none ↦ 0 | some i ↦ i ]

-- sort.SliceStable by index: an element goes in front of those that are not less than it.
insert_controller : Controller → List Controller → List Controller
insert_controller c [] = c ∷ []
insert_controller c (d ∷ ds) =
    let rest = insert_controller c ds in
    if ltb (index_of d) (index_of c) then d ∷ rest else c ∷ d ∷ ds

sort_controllers : List Controller → List Controller
sort_controllers [] = []
sort_controllers (c ∷ cs) = insert_controller c (sort_controllers cs)

of_type : Str → List Controller → List Controller
of_type type [] = []
of_type type (c ∷ cs) = let rest = of_type type cs in if str_eq c.type type then c ∷ rest else rest

unfoldable pub find_controllers : DomainDef → Str → List Controller
unfolding of_type sort_controllers insert_controller index_of
find_controllers domain_def type = sort_controllers (of_type type domain_def.devices.controllers)

-- A PCI address all of whose fields are set.
pub record FullAddress : Type 0 where
  pub domain : ℕ
  pub bus : ℕ
  pub slot : ℕ
  pub function : ℕ

unfoldable pub full_fields : Option ℕ → Option ℕ → Option ℕ → Option ℕ → Option FullAddress
full_fields (some d) (some b) (some s) (some f) =
    some (record { domain = d; bus = b; slot = s; function = f })
full_fields _ _ _ _ = none

unfoldable pub full_pci : Option PciAddress → Option FullAddress
full_pci none = none
full_pci (some a) = full_fields a.domain a.bus a.slot a.function

unfoldable pub full_address : Option Address → Option FullAddress
full_address none = none
full_address (some a) = full_pci a.pci

-- ctl.Address != nil && ctl.Address.PCI != nil
pub has_pci_address : Option Address → Bool
has_pci_address none = false
has_pci_address (some a) = elim a.pci [ none ↦ false | some _ ↦ true ]

last_or_zero : Str → ℕ
last_or_zero [] = 0
last_or_zero (c ∷ []) = c
last_or_zero (c ∷ d ∷ s) = last_or_zero (d ∷ s)

pub address_str : FullAddress → Str
address_str a =
    hex 4 a.domain
    ++ codes ":"
    ++ hex 2 a.bus
    ++ codes ":"
    ++ hex 2 a.slot
    ++ codes "."
    ++ hex 1 a.function

-- The end of the closure `recurse`: the address is added to both paths.
pub extend : Str → FullAddress → DiskPath → DiskPath
unfolding address_str
extend path_prefix a p = record {
  dev_path =
      (if last_or_zero p.dev_path == b'/' then p.dev_path else p.dev_path ++ codes "-")
      ++ path_prefix
      ++ codes "-"
      ++ address_str a;
  sysfs_path = p.sysfs_path ++ codes "/" ++ address_str a;
}

-- pci-root is not mentioned in devPath, but is present in sysfsPath
pub at_root : FullAddress → DiskPath → DiskPath
at_root a p = record p {
  sysfs_path = p.sysfs_path ++ codes "/pci" ++ hex 4 a.domain ++ codes ":" ++ hex 2 a.bus;
}

-- The closure `recurse` of pciPath; `hops` is 257 - depth, and the variables that the closure
-- shares with its function are passed on.
unfoldable pub recurse : ℕ → List Controller → Option Address → Str → DiskPath → Result DiskPath
recurse zero controllers addr path_prefix p =
    err (errorf "can't make path for device address: loop detected")
recurse (suc hops) controllers addr path_prefix p = elim (full_address addr) [
  | none ↦ err (errorf "can't make path for device address")
  | some a ↦
      if ltb (length controllers) a.bus
      then err (errorf "bad PCI bus number")
      else elim (get_elem? controllers a.bus) [
        | none ↦ fault panic
        | some ctl ↦ (do
          upper ← elim (has_pci_address ctl.address) [
            | true ↦ recurse hops controllers ctl.address (codes "pci") p
            | false ↦ ok (at_root a p)
          ]
          ok (extend path_prefix a upper))
      ]
]

abbrev pub no_path : DiskPath
no_path = record { dev_path = codes "/dev/disk/by-path/"; sysfs_path = codes "/sys/devices" }

unfoldable pub pci_path : DomainDef → Option Address → Result DiskPath
unfolding recurse full_address full_pci full_fields has_pci_address at_root extend last_or_zero
pci_path domain_def addr =
    wrapped "pciPath"
      (recurse 257 (find_controllers domain_def (codes "pci")) addr (codes "virtio-pci") no_path)
