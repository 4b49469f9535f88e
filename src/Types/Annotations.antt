-- ===== src/Types/Annotations.antt =====
-- pkg/metadata/types/annotations.go: the defaults and the validation of the pod annotations.
-- Parsing them (YAML, external data sources) is a parameter.
use mathlib.Core.Path.{subst}
use virtlet.Prelude.{
  ℕ, zero, suc, ◌≤◌, Str, codes, str_eq, Bool, true, false, not, ◌||◌, Option, List, [], ltb,
  if◌then◌else◌, ◌≡◌, refl, ◌⊎◌, arith, str_eq→eq,
}
use virtlet.Prelude.Int.{ℤ, pos, negsuc}
use virtlet.Result.{Result, ok, err, fault, errorf, ◌>>=◌, ◌>>◌, ok_injective}
use virtlet.Types.Domain.{Cpu}

abbrev pub max_vcpu_count : ℕ
max_vcpu_count = 255

abbrev pub no_cloud : Str
no_cloud = codes "nocloud"

abbrev pub config_drive : Str
config_drive = codes "configdrive"

abbrev pub host_model : Str
host_model = codes "host-model"

abbrev pub disk_driver_virtio : Str
disk_driver_virtio = codes "virtio"

abbrev pub disk_driver_scsi : Str
disk_driver_scsi = codes "scsi"

pub record VirtletAnnotations : Type 0 where
  pub vcpu_count : ℤ
  pub cpu_model : Str
  pub cd_image_type : Str
  pub disk_driver : Str
  pub cpu_setting : Option Cpu
  pub system_uuid : Option Str
  -- in bytes
  pub root_volume_size : ℤ
  -- the paths and the contents
  pub injected_files : List (Str × Str)

-- va.VCPUCount <= 0
at_least_one : ℤ → ℤ
at_least_one (pos n) = if ltb 0 n then pos n else pos 1
at_least_one (negsuc n) = pos 1

or_default : Str → Str → Str
or_default s d = if str_eq s [] then d else s

apply_defaults : VirtletAnnotations → VirtletAnnotations
unfolding at_least_one or_default
apply_defaults va = record va {
  vcpu_count = at_least_one va.vcpu_count;
  disk_driver = or_default va.disk_driver disk_driver_scsi;
  cd_image_type = or_default va.cd_image_type no_cloud;
}

above_max : ℤ → Bool
above_max (pos n) = ltb max_vcpu_count n
above_max (negsuc n) = false

-- The texts are joined into one error; here they only decide whether there is one.
validate : VirtletAnnotations → Result (Unit {0})
unfolding above_max
validate va =
    if above_max va.vcpu_count
      || not (str_eq va.disk_driver disk_driver_virtio || str_eq va.disk_driver disk_driver_scsi)
      || not (str_eq va.cd_image_type no_cloud || str_eq va.cd_image_type config_drive)
      || not (str_eq va.cpu_model [] || str_eq va.cpu_model host_model)
    then err (errorf "bad virtlet annotations")
    else ok tt

module _ (parse_pod_annotations : Str → List (Str × Str) → Result VirtletAnnotations) where
  unfoldable pub load_annotations : Str → List (Str × Str) → Result VirtletAnnotations
  unfolding apply_defaults validate
  load_annotations ns pod_annotations = do
    parsed ← parse_pod_annotations ns pod_annotations
    let va = apply_defaults parsed
    validate va
    ok va

-- What the rest of Virtlet may rely on: from 1 to 255 CPUs, and a known disk driver, image type
-- and CPU model.
pub record IsUsable (va : VirtletAnnotations) : Type 0 where
  pub cpus : (n : ℕ) × (va.vcpu_count ≡ pos n) × (1 ≤ n) × (n ≤ max_vcpu_count)
  pub driver : (va.disk_driver ≡ disk_driver_virtio) ⊎ (va.disk_driver ≡ disk_driver_scsi)
  pub image_type : (va.cd_image_type ≡ no_cloud) ⊎ (va.cd_image_type ≡ config_drive)
  pub model : (va.cpu_model ≡ []) ⊎ (va.cpu_model ≡ host_model)

cpus_in_range :
    (v : ℤ)
    → above_max (at_least_one v) ≡ false
    → (n : ℕ) × (at_least_one v ≡ pos n) × (1 ≤ n) × (n ≤ max_vcpu_count)
unfolding above_max at_least_one
cpus_in_range (pos zero) h = (1, refl, omega arith, omega arith)
cpus_in_range (pos (suc n)) h = (suc n, ground arith, omega arith, ground arith)
cpus_in_range (negsuc n) h = (1, refl, omega arith, omega arith)

either : (s a b : Str) → (str_eq s a || str_eq s b) ≡ true → (s ≡ a) ⊎ (s ≡ b)
either s a b h = ground (arith, str_eq→eq s a, str_eq→eq s b)

validate_tests :
    (va : VirtletAnnotations) {u : Unit {0}}
    → validate va ≡ ok u
    → (above_max va.vcpu_count ≡ false)
      × ((str_eq va.disk_driver disk_driver_virtio || str_eq va.disk_driver disk_driver_scsi)
          ≡ true)
      × ((str_eq va.cd_image_type no_cloud || str_eq va.cd_image_type config_drive) ≡ true)
      × ((str_eq va.cpu_model [] || str_eq va.cpu_model host_model) ≡ true)
unfolding validate
validate_tests va h = ground arith

validate-IsUsable :
    (va : VirtletAnnotations) {u : Unit {0}}
    → validate (apply_defaults va) ≡ ok u
    → IsUsable (apply_defaults va)
unfolding apply_defaults
validate-IsUsable va h =
    let t = validate_tests (apply_defaults va) h in
    record {
      cpus = cpus_in_range va.vcpu_count t.0;
      driver = either _ _ _ t.1;
      image_type = either _ _ _ t.2;
      model = either _ _ _ t.3;
    }

IsUsable-result :
    (va : VirtletAnnotations) (r : Result (Unit {0})) (out : VirtletAnnotations)
    → ((u : Unit {0}) → r ≡ ok u → IsUsable va)
    → (r >> ok va) ≡ ok out
    → IsUsable out
IsUsable-result va (ok u) out h e = subst IsUsable (ok_injective e) (h u refl)
IsUsable-result va (err x) out h e = cc
IsUsable-result va (fault x) out h e = cc

module _ (parse : Str → List (Str × Str) → Result VirtletAnnotations) where
  -- Annotations that are loaded without an error are usable, whatever the parser returned.
  pub load_annotations-IsUsable :
      (ns : Str) (annotations : List (Str × Str)) (va : VirtletAnnotations)
      → load_annotations parse ns annotations ≡ ok va
      → IsUsable va
  load_annotations-IsUsable ns annotations va h =
      go (parse ns annotations) (unfold load_annotations in h)
    where
      go :
          (p : Result VirtletAnnotations)
          → (p >>= λ parsed. validate (apply_defaults parsed) >> ok (apply_defaults parsed)) ≡ ok va
          → IsUsable va
      go (ok parsed) e =
          IsUsable-result (apply_defaults parsed) _ va (λ u. validate-IsUsable parsed) e
      go (err x) e = cc
      go (fault x) e = cc
