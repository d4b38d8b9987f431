-- ===== src/Lib.antt =====
-- A model of proxmox-cpu-affinity, which pins the VMs of a Proxmox host to CPUs that are near to
-- each other, and the theorems about it.
--
-- The program. A service measures the latency between the CPUs of the host and ranks, for each core,
-- all others by it. When a VM has started, Proxmox runs a hook, which asks the service over a Unix
-- socket to place the VM. The service reads the VM's configuration and process id, selects a core,
-- in turn, and its nearest neighbors, and sets the CPU mask of the VM's processes and threads. A
-- command line tool puts the hook into VMs.
--
-- The files, and the code they model:
--   Base, Base/*         Go's integers, strings, decimal numbers, maps and sort.Slice, and lemmas.
--   CpuInfo/Types        the data of pkg/cpuinfo/cpuinfo.go: CoreInfo, Neighbor, CoreRanking, CPUInfo.
--   CpuInfo/Floats       float64, as an interface.
--   CpuInfo/Topology     detectTopologySystem, readSysFSInt.
--   CpuInfo/Selection    SelectCPUs, GetSelections, GetCoreRanking, the locked end of Update.
--   CpuInfo/Update       Update, CalculateRanking.
--   CpuInfo/Summary      SummarizeRankings.
--   CpuInfo/Link         measureSingleLink, and lockToCPU of pkg/cpuinfo/cpuinfo_linux.go.
--   CpuInfo/History      the operations on the shared state in any order.
--   CpuInfo/Contract     what the users of pkg/cpuinfo rely on, and that the package refines it.
--   Proxmox              pkg/proxmox/proxmox.go: GetVmConfig, GetVmPid.
--   Scheduler/Mask       the CPU mask, as an interface.
--   Scheduler/CpuSet     pkg/scheduler/affinity_other.go: CPUSet, which fills that interface.
--   Scheduler/Processes  pkg/scheduler/affinity.go: the reads of /proc, collectPidsToUpdate.
--   Scheduler/Affinity   ApplyAffinity, and UpdateAffinity of pkg/scheduler/scheduler.go.
--   Service              pkg/service/service.go: handleConnection.
--   Service/Accepting    the accepting loop of Start, and its goroutines.
--   Config               pkg/config/config.go: Load, its getters, AdaptiveCpuInfoParameters.
--   Hook                 pkg/hook/hook.go, and cmd/hook/main.go.
--   Cli/Session          what a command of cmd/cli runs and prints, and cmd/cli/helper.go.
--   Cli/Hookscript       cmd/cli/hookscript.go.
--   Cli/Reassign         cmd/cli/reassign.go, and the list of running VMs of cmd/cli/helper.go.
--   Cli/Ps               cmd/cli/ps.go.
--   Cli/CpuInfoCmd       cmd/cli/cpuinfo.go.
--   Cli/Status           cmd/cli/status.go, and the requests to the service of cmd/cli/helper.go.
--   Hotplug              pkg/cpuinfo/hotplug.go: the filter on messages, and the reactor.
--   Svg/Types, Svg/Color pkg/svg/types.go and pkg/svg/color.go.
--   Svg/Heatmap          pkg/svg/svg.go: New, prepareData, calculateDimensions.
--   Svg/Drawing          Generate, up to the data that the template takes.
--   ServiceMain          cmd/service/main.go, with Start and Shutdown of pkg/service/service.go, and
--                        StartWatchdog and StopWatchdog of pkg/cpuinfo/hotplug.go.
--   Examples             tests, and the theorems at concrete inputs.
-- The modules below a file hold its theorems.
--
-- How state is modelled. Each operation on CPUInfo runs under the mutex, so it is a function from
-- state to state; Update measures without the lock, so it counts as one step when it puts its
-- results in. The goroutines of the hotplug reactor and of the service, and the two threads of a
-- measurement, are step relations, in which a loop that only waits makes no step. An `int` is a ℤ,
-- and the product of cores and sockets wraps at 64 bits. An error is a value. Pixels are ℕ: they
-- are small multiples of the lengths of lists. A system call that sets an affinity is an entry of
-- the list that is returned; a program that the tool runs, and a line that it prints, is an entry
-- of its log.
--
-- Every loop is recursion on the list that Go ranges over, or on the number of rounds that are left,
-- so no fuel is chosen: the retry loop has as many rounds as `attempts_of` gives, which is n + 1 for
-- n retries and 0 for a negative number.
--
-- Parameters. The content of sysfs, of /proc and of the pid file, what programs print, what
-- encoding/json decodes and which values it refuses to write, the outcome of an attempt to reach
-- the service, a measured latency, float64, unix.CPUSet, sort.Slice and the order in which Go goes
-- through a map are not code of the repository. A parameter that changes in time is a function of
-- the number of calls, or of the log.
--
-- Not modelled: the lines of the log and their handler, timeouts of connections, the spinner and
-- the progress on stderr, errors of closing a socket, which are only logged, the template of the
-- picture, what ensureProxmoxHost finds, and cobra, which counts the arguments.
pub mod Base
pub mod CpuInfo
pub mod Proxmox
pub mod Scheduler
pub mod Service
pub mod Config
pub mod Hook
pub mod Cli
pub mod Examples
pub mod Hotplug
pub mod Svg
pub mod ServiceMain
