-- ===== src/Disk/Bus.antt =====
-- The bus number of a PCI address, against the controllers that the domain has.
use virtlet.Prelude.{
  ℕ, suc, ◌≤◌, ◌≡◌, refl, ap, ◌∙◌, Str, codes, true, false, Bool-cases, inl, inr, ltb, length,
  get_elem?, none, some, List, [], ◌∷◌, if◌then◌else◌, arith,
}
use virtlet.Result.{err, fault, panic, errorf, wrap, wrapped}
use virtlet.Types.Domain.{DomainDef, Address, Controller}
use virtlet.Disk.Path.{
  DiskPath, no_path, full_pci, full_fields, pci_path, recurse, find_controllers, full_address,
}

abbrev pub at : ℕ → ℕ → ℕ → ℕ → Address
at d b s f = record {
  pci = some (record { domain = some d; bus = some b; slot = some s; function = some f });
  drive = none;
}

get_elem?-length : {A : Type 0} (l : List A) → get_elem? l (length l) ≡ none
get_elem?-length [] = refl
get_elem?-length (x ∷ l) = get_elem?-length l

-- One step of the recursion, from what the two tests of the bus number give.
recurse_refuses :
    (cs : List Controller) (d b s f n : ℕ) (prefix : Str) (p : DiskPath)
    → ltb (length cs) b ≡ true
    → recurse (suc n) cs (some (at d b s f)) prefix p ≡ err (errorf "bad PCI bus number")
unfolding recurse full_address full_pci full_fields
recurse_refuses cs d b s f n prefix p above = rw above

recurse_panics :
    (cs : List Controller) (d b s f n : ℕ) (prefix : Str) (p : DiskPath)
    → ltb (length cs) b ≡ false
    → get_elem? cs b ≡ none
    → recurse (suc n) cs (some (at d b s f)) prefix p ≡ fault panic
unfolding recurse full_address full_pci full_fields
recurse_panics cs d b s f n prefix p below missing = rw (below, missing)

-- A bus number that is no index of the domain's sorted PCI controllers is refused with an error if
-- it is above their number; the number itself makes pciPath panic.
pub pci_path-bus :
    (def : DomainDef) (d b s f : ℕ)
    → length (find_controllers def (codes "pci")) ≤ b
    → pci_path def (some (at d b s f)) ≡ (
        if ltb (length (find_controllers def (codes "pci"))) b
        then err (wrap "pciPath" (errorf "bad PCI bus number"))
        else fault panic)
unfolding pci_path
pci_path-bus def d b s f beyond =
    let cs = find_controllers def (codes "pci") in
    elim (Bool-cases (ltb (length cs) b)) [
      | inl above ↦
          ap (wrapped "pciPath") (recurse_refuses cs d b s f 256 (codes "virtio-pci") no_path above)
          ∙ rw above
      | inr not_above ↦
          let same : b ≡ length cs = ground arith in
          ap (wrapped "pciPath") (
            recurse_panics cs d b s f 256 (codes "virtio-pci") no_path not_above
              (ap (get_elem? cs) same ∙ get_elem?-length cs))
          ∙ rw not_above
    ]
