-- ===== src/Tool/Pinning.antt =====
-- cpusets.go: which file is taken for the one with the emulator's process ID.
use virtlet.Prelude.{
  Str, codes, some, ◌≤◌, take, [], ◌∷◌, ◌++◌, length, length-append, append_assoc, ◌≡◌, ◌↔◌, refl,
  sym, ap, ◌∙◌, arith,
}
use virtlet.Result.{ok, ok_injective}
use virtlet.Prog.{◌>>=◌}
use virtlet.Types.{ContainerInfo}
use virtlet.World.{World}
use virtlet.MetaStore.{MetaStore}
use virtlet.Tool.State.{Sys, on_meta}
use virtlet.Tool.Create.{domain_name_of, first_13}
use virtlet.Tool.Cpusets.{get_emulator_pid_file_location, pid_file}

-- Where libvirt keeps the process ID of a domain's emulator.
abbrev pub libvirt_pid_file : Str → Str
libvirt_pid_file domain_name = codes "/run/libvirt/qemu/" ++ (domain_name ++ codes ".pid")

cancel_left : (p a b : Str) → p ++ a ≡ p ++ b → a ≡ b
cancel_left [] a b h = h
cancel_left (c ∷ p) a b h = cancel_left p a b (ground arith)

cancel_right : (a b s : Str) → a ++ s ≡ b ++ s → a ≡ b
cancel_right [] [] s h = refl
cancel_right [] (y ∷ b) s h =
    let k = ap length h in let l = length-append b s in absurd (omega arith)
cancel_right (x ∷ a) [] s h =
    let k = ap length h in let l = length-append a s in absurd (omega arith)
cancel_right (x ∷ a) (y ∷ b) s h = ground (arith, cancel_right a b s)

libvirt_pid_file_lem :
    (id_start name : Str) → libvirt_pid_file (domain_name_of id_start name) ≡ pid_file id_start name
unfolding pid_file domain_name_of
libvirt_pid_file_lem id_start name =
    ap (λ s. codes "/run/libvirt/qemu/virtlet-" ++ s)
      (append_assoc id_start (codes "-" ++ name) (codes ".pid"))

pid_file_injective : (start a b : Str) → pid_file start a ≡ pid_file start b → a ≡ b
unfolding pid_file
pid_file_injective start a b h =
    let tails = cancel_left (codes "/run/libvirt/qemu/virtlet-") _ _ h in
    cancel_right a b (codes ".pid") (
      cancel_left (codes "-") (a ++ codes ".pid") (b ++ codes ".pid") (cancel_left start _ _ tails))

file_of_domain :
    (id_start pod_name name : Str)
    → (pid_file id_start pod_name ≡ libvirt_pid_file (domain_name_of id_start name))
      ↔ (pod_name ≡ name)
file_of_domain id_start pod_name name = (
  λ e. pid_file_injective id_start pod_name name (e ∙ libvirt_pid_file_lem id_start name),
  λ e. ap (pid_file id_start) e ∙ sym (libvirt_pid_file_lem id_start name),
)

first_13-ok : (s : Str) → 13 ≤ length s → first_13 s ≡ ok (take 13 s)
unfolding first_13
first_13-ok s long = ground arith

module _ (x : World) (m : MetaStore) where
  open x use {W}
  open m use {St}

  -- Of a container with a record and an ID of 13 characters or more, the file that the cpuset code
  -- takes for the one with the emulator's process ID is the one of the domain that CreateContainer
  -- has named exactly if the container has the name of its pod.
  pub get_emulator_pid_file_location-named :
      (id : Str) (c : ContainerInfo) (s : Sys W St)
      → (m.retrieve id s.meta).0 ≡ ok (some c)
      → 13 ≤ length id
      → ((get_emulator_pid_file_location x m id s).0
          ≡ ok (libvirt_pid_file (domain_name_of (take 13 id) c.config.name)))
        ↔ (c.config.pod_name ≡ c.config.name)
  unfolding get_emulator_pid_file_location ◌>>=◌ on_meta
  get_emulator_pid_file_location-named id c s found long =
      let start : first_13 id ≡ ok (take 13 id) = first_13-ok id long in
      let run : (get_emulator_pid_file_location x m id s).0
          ≡ ok (pid_file (take 13 id) c.config.pod_name) =
        rw (found, start) in
      let files = file_of_domain (take 13 id) c.config.pod_name c.config.name in
      (λ h. files.0 (ok_injective (sym run ∙ h)), λ same. run ∙ ap ok (files.1 same))
