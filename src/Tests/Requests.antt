-- ===== src/Tests/Requests.antt =====
-- A request for the first container of a pod whose network was described.
use virtlet.Prelude.{Str, codes, false, Option, none, some, []}
use virtlet.Result.{ok, err, errorf}
use virtlet.Types.{ContainerInfo, PodSandboxInfo}
use virtlet.MetaStore.{MetaStore}
use virtlet.Tool.Create
use virtlet.Runtime.Messages.{CreateContainerRequest}
use virtlet.Runtime.Host.{Host}
use virtlet.Runtime.Containers.{create_container}
use virtlet.Tests.Machine.{Machine, fresh}
use virtlet.Tests.Shelf.{shelf}
use virtlet.Tests.Cabin.{Keys, keys}
use virtlet.Tests.Pods.{config_of}
use virtlet.Tests.Calls.{bare, for_one_more, pod, settings}

abbrev described : PodSandboxInfo
described = record pod {
  container_side_network =
      some (record { result = some (record { ips = [] }); ns_path = codes "/ns" });
}

-- A store with that pod, which cannot be changed, and no containers of it.
abbrev vacant : MetaStore
vacant = record shelf {
  retrieve_sandbox = λ id s. (ok (some described), s);
  save_sandbox = λ id f s. (err (errorf "read only"), s);
  list_pod_containers = λ p s. (ok [], s);
}

abbrev request : CreateContainerRequest
request = record for_one_more { sandbox_config = some (config_of (codes "pod1")) }

abbrev before : Host Machine (Str → Option ContainerInfo) Keys
before = record { sys = record { world = fresh; meta = λ id. none }; services = λ k. false }

abbrev new_id : Str
new_id = codes "67b7fb47-7735-4b64-86d2-6d062d121966pod1"

abbrev after : Host Machine (Str → Option ContainerInfo) Keys
after = (create_container bare vacant keys settings request before).1
