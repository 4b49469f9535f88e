-- ===== src/World.antt =====
-- What Virtlet's core calls and does not implement: the clock, libvirt behind pkg/virt, the volume
-- sources and volumes, the storage pool, files and UUIDs. `W` is the state of all of these.
use virtlet.Prelude.{ℕ, ◌+◌, ◌≤◌, Str, Bool, Option, List}
use virtlet.Result.{Error, Result}
use virtlet.Prog.{Prog}
use virtlet.Types.{VmConfig, StrMap}
use virtlet.Types.Domain.{DomainState, DomainDef, DiskDef, FilesystemDef}
use virtlet.Types.Annotations.{VirtletAnnotations}
use virtlet.Disk.Path.{DiskPath}

pub record World : Type 1 where
  pub W : Type 0
  -- virt.Domain, VMVolume and virt.StorageVolume values
  pub Domain : Type 0
  pub Volume : Type 0
  pub PoolVolume : Type 0
  -- clockwork.Clock, in nanoseconds
  pub now : W → ℕ
  pub sleep : ℕ → W → W
  -- virt.DomainConnection
  pub define_domain : DomainDef → Prog W Domain
  pub list_domains : Prog W (List Domain)
  pub lookup_domain_by_name : Str → Prog W Domain
  pub lookup_domain_by_uuid_string : Str → Prog W Domain
  -- virt.Domain
  pub create : Domain → Prog W (Unit {0})
  pub destroy : Domain → Prog W (Unit {0})
  pub undefine : Domain → Prog W (Unit {0})
  pub shutdown : Domain → Prog W (Unit {0})
  pub state : Domain → Prog W DomainState
  pub uuid_string : Domain → Prog W Str
  pub name : Domain → Prog W Str
  pub xml : Domain → Prog W DomainDef
  pub get_rss : Domain → Prog W ℕ
  pub get_cpu_time : Domain → Prog W ℕ
  -- VMVolumeSource and VMVolume
  pub volume_source : VmConfig → Prog W (List Volume)
  pub is_disk : Volume → Bool
  pub volume_uuid : Volume → Str
  pub setup : Volume → Prog W (Option DiskDef × Option FilesystemDef)
  pub write_image : List (Str × DiskPath) → Volume → Prog W (Unit {0})
  pub teardown : Volume → Prog W (Unit {0})
  -- the tool's StoragePool, the pool's ListVolumes, and virt.StorageVolume
  pub storage_pool : Prog W (Unit {0})
  pub list_volumes : Prog W (List PoolVolume)
  pub path : PoolVolume → Prog W Str
  pub remove : PoolVolume → Prog W (Unit {0})
  -- ImageManager().BytesUsedBy
  pub bytes_used_by : Str → Prog W ℕ
  -- filepath.Glob and os.Remove
  pub glob : Str → Prog W (List Str)
  pub remove_file : Str → Prog W (Unit {0})
  -- fs.FileSystem.IsPathAnNs
  pub is_path_an_ns : Str → W → Bool
  -- fs.FileSystem's GetDelimitedReader, with all that can be read from it, and WriteFile; and the
  -- test for an *os.PathError
  pub get_delimited_reader : Str → Prog W Str
  pub write_file : Str → Str → Prog W (Unit {0})
  pub is_path_error : Error → Bool
  -- filepath.Join
  pub join_path : List Str → Str
  -- blockdev.LogicalDeviceHandler
  pub list_virtlet_logical_devices : Prog W (List Str)
  pub unmap : Str → Prog W (Unit {0})
  -- fields.SelectorFromSet(selector).Matches(labels)
  pub selector_matches : StrMap → StrMap → Bool
  -- utils.NewUUID5, and the parser of the pod annotations
  pub new_uuid5 : Str → Str → Str
  pub parse_pod_annotations : Str → StrMap → Result VirtletAnnotations

-- The clock never goes back, neither while the program sleeps nor during a call `m`.
pub record IsClock (x : World) : Type 0 where
  pub sleeps : (d : ℕ) (w : x.W) → x.now w + d ≤ x.now (x.sleep d w)

abbrev pub TakesTime : (x : World) {A : Type 0} → Prog x.W A → Type 0
TakesTime x m = (w : x.W) → x.now w ≤ x.now (m w).1
