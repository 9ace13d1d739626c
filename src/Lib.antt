-- ===== src/Lib.antt =====
-- dra-rt-driver, a resource driver of Kubernetes for real-time CPUs: a controller that gives shares
-- of the CPUs of the nodes to the claims of pods, and a plugin of the kubelet that prepares on each
-- node what was given. The two share one NodeAllocationState resource for each node: its allocatable
-- CPUs, the claims that are allocated and prepared, and the utilisation of each CPU in thousandths.
--
-- How the parts interact. The scheduler asks the controller which nodes of a pod do not fit
-- (`UnsuitableNodes`): for each node the driver reads the record, adds what is pending for the node,
-- proposes CPUs for each claim by worst fit below 950 thousandths, and keeps the proposal among the
-- pending allocations. When a node is chosen, `Allocate` moves the pending allocation into the
-- record on the API server and drops what is pending for the claim; `Deallocate` takes it out again
-- and gives the load back. On the node the plugin reads the record, keeps the claims that it has
-- prepared, and writes them back to the record.
--
-- Which file models what (paths from the root of the repository):
--   Prelude                    booleans, lists, Go's int and its wrap-around (Int), strconv (Decimal),
--                              maps (GoMap), errors and panics (Outcome), calls on a state (Exec),
--                              what holds after them (Meets), strings and path (Text)
--   Nas, Nas/*                 api/example.com/resource/rt/nas/v1alpha1: nas.go, api.go
--   Params                     api/example.com/resource/rt/v1alpha1: api.go, rtclaim.go, deviceclass.go
--   Resource                   what is read and written of the types of Kubernetes
--   Client, Client/*           api/example.com/resource/rt/nas/v1alpha1/client/client.go
--   Pending, Pending/*         cmd/dra-rt-controller/allocations.go: `PerNodeAllocatedClaims`; its lock
--                              in Locking
--   Partition, Partition/*     cmd/dra-rt-controller/rt.go: `cpuPartitioning`
--   Rt/Propose                 cmd/dra-rt-controller/rt.go: `allocate`
--   Rt, Rt/*                   cmd/dra-rt-controller/rt.go: `Allocate`, `Deallocate`, `UnsuitableNode`
--   Controller, Controller/*   cmd/dra-rt-controller/driver.go; the pure functions in Record, and
--                              `UnsuitableNodes` in Nodes
--   Controller/History         the controller as steps on the records of all nodes and the pending
--                              allocations; what a node has promised in Rt/Commitment and Rt/Covered
--   Controller/Server          the calls of the driver over an API server, whatever it answers, and
--                              any sequence of them (Run)
--   Mutex, Mutex/Table         cmd/dra-rt-controller/mutex.go
--   Plugin/Devices, State      cmd/dra-rt-kubeletplugin/state.go; `NewDeviceState` in State/Start
--   Plugin/Discovery           cmd/dra-rt-kubeletplugin/discovery-t.go
--   Plugin/Possible, Cgroup    cmd/dra-rt-kubeletplugin/discovery.go and cgroup.go
--   Plugin/Cdi                 cmd/dra-rt-kubeletplugin/cdi.go
--   Plugin/Driver              cmd/dra-rt-kubeletplugin/driver.go
--   Programs/Setup             pkg/flags
--   Programs/Status            cmd/set-nas-status/main.go
--   Programs/Controller        cmd/dra-rt-controller/main.go
--   Programs/KubeletPlugin     cmd/dra-rt-kubeletplugin/main.go; the start and the end of a plugin and
--                              what the controller makes of them in Starting and Lifecycle
--   Examples                   concrete inputs
-- A function has the name of the Go function in snake case; a loop is a function of its own over the
-- list that is left, and a loop body one more.
--
-- State and failure. A Go function returns an `Outcome`: a result, an error, or a panic (a nil map
-- that is written, a nil pointer that is read, an index out of range, a division by 0). Functions
-- that change what their receiver points to, or what a server holds, take that as a state and
-- return it beside the outcome, beside an error too. A pointer or a map that may be nil is an option.
-- Deep copies are the values themselves. Log lines and printing are left out.
--
-- Numbers and loops. Go's `int` has 64 bits, with the wrap-around written out in each operation.
-- Loops over slices and maps are structural; `range` over a map is a loop over its entries in any
-- order, and where two loops of one function may see two orders the order is a parameter
-- (`RangeOrder`). The only loop with a bound is `Update` of the client, whose four rounds are the
-- number that the code has.
--
-- Parameters. Code of other projects stands as an argument: the generated clientset with the API
-- server behind it (`NasApi`, `Clientset`), client-go (`ClientGo`), the CDI library and its registry
-- (`CdiLib`), the kubelet's plugin library (`Kubelet`) and `retry.RetryOnConflict` (`Retry`); and so do
-- the file system (`Os`, `Files`), the network, the mux of `net/http` (`ServeMux`), the generator of random numbers and what the kubelet
-- asks of the plugin until a signal ends it. What is relied on is stated by name: a server that stores
-- what it accepts and reads back what it stored (`IsServer`, `IsCreator`), that stores nothing else,
-- whatever it answers (`IsStore`), a library that finds a version for every spec (`HasVersions`), a
-- retry that returns what is not a conflict (`IsRetry`) and nil only when an attempt has
-- (`IsAttempting`), random numbers below their bound (`IsIntn`), and a mux that takes a plain pattern
-- unless it has it (`IsServeMux`).
--
-- Locks. Each method of `PerNodeAllocatedClaims` and of the plugin's state is one step under its
-- lock; the lock of a node is held over a whole call of the controller. A visitor of `VisitNode`
-- runs with the lock released, as the code does it, and changes the record that is visited. A step
-- of Controller/History is one call of rt.go with the read or the write of the node's record; calls
-- about different nodes follow each other there, in any order, and do not overlap. A step of
-- Controller/Server/Run is one whole call of the controller's driver.go on one node, a request of
-- the kubelet to the plugin, or a write of another program between two calls. Pending/Locking has
-- the calls of the read-write lock on their own, for a goroutine that reads and one that writes.
--
-- Not modelled: the generated clientset, fakes and deep copies; `main` of the programs and
-- `NewLoggingConfig`, which hand over to the command-line library and to component-base; the
-- functions of the CDI handler and the code in comments that nothing calls, so cgroup.go of the
-- controller; and the field `preparedCgroups` of the plugin, which no decision depends on.
pub mod Prelude
pub mod Nas
pub mod Pending
pub mod Partition
pub mod Params
pub mod Resource
pub mod Rt
pub mod Client
pub mod Controller
pub mod Mutex
pub mod Plugin
pub mod Programs
pub mod Examples
