-- ===== src/Tests/Machine.antt =====
-- A small machine for the tests: a clock, one domain, two volumes, and a log of the calls.
use virtlet.Prelude.{
  ℕ, ◌+◌, Str, codes, str_eq, Bool, true, false, Option, none, some, List, [], ◌∷◌, ◌++◌, arith,
}
use virtlet.Prelude.Int.{pos}
use virtlet.Result.{Result, ok, err, foreign}
use virtlet.Prog.{Prog}
use virtlet.Types.Domain.{DomainState, DomainDef, DiskDef, FilesystemDef}
use virtlet.Types.Annotations.{VirtletAnnotations}
use virtlet.World.{World, IsClock}

pub record Machine : Type 0 where
  pub clock : ℕ
  pub state : DomainState
  pub log : List Str

-- A disk with its name, or a shared directory; the disk named "bad" cannot be set up.
pub data TestVolume : Type 0 where
  disk directory : Str → TestVolume

abbrev plain_disk : DiskDef
plain_disk = record { target = none; address = none; file = some (codes "/img") }

abbrev plain_directory : FilesystemDef
plain_directory = record { source_dir = codes "/a"; target_dir = codes "/b" }

abbrev noted : {A : Type 0} → Str → Result A → Prog Machine A
noted text r w = (r, record w { log = w.log ++ text ∷ [] })

abbrev setup_volume : TestVolume → Prog Machine (Option DiskDef × Option FilesystemDef)
setup_volume (disk n) w = elim (str_eq n (codes "bad")) [
  | true ↦ (err (foreign 7), w)
  | false ↦ noted (codes "setup " ++ n) (ok (some plain_disk, none)) w
]
setup_volume (directory n) w = noted (codes "setup " ++ n) (ok (none, some plain_directory)) w

abbrev volume_name : TestVolume → Str
volume_name (disk n) = n
volume_name (directory n) = n

abbrev disk_volume : TestVolume → Bool
disk_volume (disk n) = true
disk_volume (directory n) = false

abbrev pub empty_definition : DomainDef
empty_definition = record {
  type = [];
  name = [];
  uuid = [];
  memory = 0;
  memory_unit = [];
  vcpu = pos 0;
  cpu_shares = 0;
  cpu_period = 0;
  cpu_quota = pos 0;
  on_poweroff = [];
  on_reboot = [];
  on_crash = [];
  envs = [];
  cpu = none;
  system_uuid = none;
  devices = record {
    emulator = [];
    controllers = [];
    disks = [];
    filesystems = [];
    serials = [];
    consoles = [];
  };
}

abbrev pub parsed : VirtletAnnotations
parsed = record {
  vcpu_count = pos 0;
  cpu_model = [];
  cd_image_type = [];
  disk_driver = [];
  cpu_setting = none;
  system_uuid = none;
  root_volume_size = pos 0;
  injected_files = [];
}

abbrev pub machine : World
machine = record {
  W = Machine;
  Domain = Str;
  Volume = TestVolume;
  PoolVolume = Str;
  now = λ w. w.clock;
  sleep = λ d w. record w { clock = w.clock + d };
  define_domain = λ d. noted (codes "define") (ok d.name);
  list_domains = λ w. (ok [], w);
  lookup_domain_by_name = λ n w. (ok n, w);
  lookup_domain_by_uuid_string = λ n w. (ok n, w);
  create = λ d w. (ok tt, record w { state = DomainState.running });
  destroy = λ d. noted (codes "destroy " ++ d) (err (foreign 1));
  undefine = λ d. noted (codes "undefine " ++ d) (ok tt);
  shutdown = λ d w. (ok tt, record w { state = DomainState.shutoff });
  state = λ d w. (ok w.state, w);
  uuid_string = λ d w. (ok d, w);
  name = λ d w. (ok d, w);
  xml = λ d w. (ok empty_definition, w);
  get_rss = λ d w. (ok 1, w);
  get_cpu_time = λ d w. (ok 2, w);
  volume_source = λ c w. (ok (disk (codes "root") ∷ []), w);
  is_disk = disk_volume;
  volume_uuid = volume_name;
  setup = setup_volume;
  write_image = λ m v. noted (codes "write") (ok tt);
  teardown = λ v. noted (codes "teardown " ++ volume_name v) (ok tt);
  storage_pool = λ w. (ok tt, w);
  list_volumes = λ w. (ok [], w);
  path = λ p w. (ok p, w);
  remove = λ p. noted (codes "remove " ++ p) (ok tt);
  bytes_used_by = λ p w. (ok 3, w);
  glob = λ p w. (ok [], w);
  remove_file = λ p. noted (codes "remove " ++ p) (ok tt);
  is_path_an_ns = λ p w. true;
  get_delimited_reader = λ n w. (err (foreign 2), w);
  write_file = λ n s. noted (codes "write " ++ n) (ok tt);
  is_path_error = λ e. true;
  join_path = λ parts. [];
  list_virtlet_logical_devices = λ w. (ok [], w);
  unmap = λ p. noted (codes "unmap " ++ p) (ok tt);
  selector_matches = λ s l. true;
  new_uuid5 = λ n s. n ++ s;
  parse_pod_annotations = λ n a. ok parsed;
}

abbrev pub fresh : Machine
fresh = record { clock = 100; state = DomainState.shutoff; log = [] }

pub machine-IsClock : IsClock machine
machine-IsClock = record { sleeps = λ d w. omega arith }
