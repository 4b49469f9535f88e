-- ===== src/Lib.antt =====
-- Virtlet runs virtual machines as Kubernetes pods: kubelet asks it for containers over CRI, and it
-- defines and starts libvirt domains in their place. This library models the core of it: the
-- runtime service, the virtualization tool, the disks of a VM, the garbage collector, the metadata
-- store, the image store and the server of network devices' file descriptors.
--
-- How the parts interact. Kubelet calls the runtime service, which keeps the records of pods in the
-- metadata store, has their networks set up by the descriptor manager and passes the calls on
-- containers on to the tool. The tool's operations are called with a container's ID. They call libvirt
-- (pkg/virt), the sources of volumes and the clock, which are outside the model, and keep the
-- container's record in the metadata store (pkg/metadata), which the garbage collector reads to
-- tell which domains and volumes are orphans.
--
-- - Prelude, Result, Prog: Go strings as lists of bytes, errors and panics as values, and methods
--   as functions from a state to a result and a state. What is written before an error stays.
-- - World: what the code calls and does not implement. It is a record of operations on a state `W`
--   and a parameter of everything that uses it. No law of it is assumed but the one of the clock,
--   where a theorem names it.
-- - Types: pkg/metadata/types and pkg/virt/domain_interface.go; Types.Annotations is
--   annotations.go, whose parser (YAML, data sources) is a parameter. Of libvirtxml's structures
--   and of the source's records there are the fields that the modelled code reads or writes.
-- - Disk: pkg/libvirttools/diskdriver.go, with diskPath and pciPath.
-- - DiskList: disklist.go. diskList is a list of items; newDiskList is new_disk_list, and setup,
--   writeImages and teardown are setup_disks, write_images and teardown_disks.
-- - Tool: virtualization.go, and pkg/utils/wait.go in Tool.Wait. The state is the outside world and
--   the store (Tool.State). CreateContainer is in Tool.Create, createDomain in Tool.Settings, the
--   operations that start, stop and remove a container and UpdateContainerNetwork in
--   Tool.Lifecycle, and ListContainers, ContainerInfo and the statistics in Tool.Query.
--   cpusets.go is Tool.Cpusets, over Cgroups: pkg/utils/cgroups/controllers.go.
-- - Runtime: pkg/manager/runtime.go and cri.go, with NewPodSandboxInfo and GetPodIP.
--   Runtime.Messages has what they use of the CRI messages, which are generated elsewhere;
--   Runtime.Convert is cri.go. The state (Runtime.Host) is what the tool acts on and the state of
--   the descriptor manager, the garbage collection handler and the stream server, which are
--   interfaces. RunPodSandbox, StopPodSandbox and the other calls on pods are in Runtime.Pods, the
--   calls on containers in Runtime.Containers. Runtime.Images is pkg/manager/image.go, over Image.
-- - Gc: gc.go. A collector is a list of calls and gives the list of its errors.
-- - MetaStore: the interface Store of pkg/metadata/store.go, with the laws that the tool's theorems
--   rely on. Metadata is its implementation over bolt: containers.go and sandboxes.go. Bolt and
--   JSON are parameters, with their documented behaviour as named laws.
-- - Tap: pkg/tapmanager/fdserver.go. Tap.Header is the header of a message, as bytes; Tap.Server is
--   FDServer with one connection, whose loop serveConn is serve_rounds; Tap.Client is FDClient, and
--   its `connect` runs the server on what a request sends. The interface FDSource and the packing
--   of descriptors into control messages are parameters (Tap.Source).
-- - Image: pkg/image/image.go. Image.Names has SplitImageName and GetHexDigest, over the packages
--   reference and digest as parameters; Image.Files is the store's directory and the calls of
--   package os, each of which may fail for a path (Faults); Image.Store lists images, Image.Change
--   places and removes them and collects unused data, and Image.Pull has PullImage and
--   GetImagePathDigestAndVirtualSize. A link leads either to a name in the data directory or out
--   of it; the sorting of directory listings is left out.
-- - Blockdev: pkg/blockdev/blockdev.go. A device is what the calls of package os and the commands
--   blockdev and dmsetup do to a state (Blockdev.Defs.DevOs); a header is written as bytes.
-- - Volumes: the sources of volumes, each on the state it needs. Volumes.PersistentRoot is
--   persistentroot_volumesource.go; Volumes.Root has root_volumesource.go and
--   block_volumesource.go, with the choice of the root among a pod's devices.
--   Volumes.Flex has qcow2_flexvolume.go, the checks of raw_flexvolume.go and volumes.go.
-- - Translation: pkg/imagetranslation/translator.go, with the records of
--   pkg/api/virtlet.k8s/v1/imagemapping.go. The map of the translations is a list, in the order
--   in which the code goes through it.
-- - Tests: a small machine, store, database and source of descriptors, and the theorems at work on them.
--
-- Bounds and fuel. WaitLoop is a recursion on timeout / retryPeriod + 2 rounds. The closure
-- `recurse` of pciPath has the source's own bound of 257 calls. Times are in nanoseconds. The
-- conversions of CreateContainer to uint and uint64 wrap around at 2 ^ 64; other integers stay in
-- the range that the source's types give them, which the model does not enforce. serveConn reads a
-- header of 77 bytes in each round, so it has one round more than the input has bytes.
--
-- Not modelled: logging, the values that error messages are formatted with, the getters of the
-- tool, the constant answers of the runtime service, the cleaning of paths by filepath.Join, and the fields that no modelled
-- code reads. Goroutines: each operation runs alone. The volume sources that the tool calls are a
-- parameter; Ceph and config volumes, cloud-init, the source of tap devices, sockets
-- and their errors, image downloads, the sources of translation configs and the network tools have no model.
pub mod Prelude
pub mod Result
pub mod Prog
pub mod Types
pub mod Disk
pub mod World
pub mod Cgroups
pub mod Blockdev
pub mod Volumes
pub mod DiskList
pub mod MetaStore
pub mod Tool
pub mod Runtime
pub mod Gc
pub mod Metadata
pub mod Tap
pub mod Image
pub mod Translation
pub mod Tests
