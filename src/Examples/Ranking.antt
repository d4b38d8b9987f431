-- ===== src/Examples/Ranking.antt =====
-- The detection of the topology, the measurement of the machine of the examples, and its summary.
use mathlib.Core.List.{Nodup}
use proxmox_cpu_affinity.Base.{
  ℕ, ◌<◌, ◌≤◌, pos, negsuc, List, [], ◌∷◌, map, none, some, codes, ◌==ᵇ◌, if◌then◌else◌, true,
  false, ok, ◌≡◌, refl, arith, insertion, insertion_sort, atoi, trim_prefix, base_name, itoa,
  trim_space, IsSorted,
}
use proxmox_cpu_affinity.CpuInfo.Types.{CoreInfo, CoreRanking, initial}
use proxmox_cpu_affinity.CpuInfo.Topology.{
  SysFs, by_cpu, detect_topology_system, numbers, detect_topology_system_lem,
}
use proxmox_cpu_affinity.CpuInfo.Update.{update}
use proxmox_cpu_affinity.CpuInfo.Update.Sorted.{IsRefreshed, update-IsRefreshed}
use proxmox_cpu_affinity.CpuInfo.Summary.{summarize_rankings}
use proxmox_cpu_affinity.CpuInfo.Summary.Bounds.{
  AllRankings, summarize_rankings-bounds, summarize_rankings-no_socket,
}
use proxmox_cpu_affinity.Cli.CpuInfoCmd.{Flags}
use proxmox_cpu_affinity.Config.{adaptive_cpu_info_parameters, Environment, load}
use proxmox_cpu_affinity.Config.Overrides.{load-itoa}
use proxmox_cpu_affinity.Config.Adaptive.{adaptive_cpu_info_parameters-antitone}
use proxmox_cpu_affinity.Examples.Machine.{
  whole, whole_order, whole_laws, topology, measurer, ranking, all_distinct-Nodup,
}

abbrev sysfs : SysFs
sysfs = record {
  glob = ok (codes "/sys/devices/system/cpu/cpu10" ∷ codes "/sys/devices/system/cpu/cpu2" ∷ []);
  read_file = λ path.
      if path ==ᵇ codes "/sys/devices/system/cpu/cpu10/topology/core_id"
      then none
      else some (codes "1\n");
}

abbrev found : List CoreInfo
found =
    record { cpu = pos 2; socket = pos 1; core = pos 1 }
    ∷ record { cpu = pos 10; socket = pos 1; core = negsuc 0 }
    ∷ []

detect_test : detect_topology_system insertion sysfs ≡ ok found
unfolding detect_topology_system insertion_sort atoi trim_prefix base_name ◌==ᵇ◌ itoa trim_space
detect_test = refl

detect_topology_system_lem_example : IsSorted by_cpu found × Nodup (map (λ c. c.cpu) found)
unfolding numbers atoi trim_prefix base_name
detect_topology_system_lem_example =
    detect_topology_system_lem insertion sysfs
      (codes "/sys/devices/system/cpu/cpu10" ∷ codes "/sys/devices/system/cpu/cpu2" ∷ []) found refl
      (all_distinct-Nodup _ refl) detect_test

update_test :
    (update whole measurer insertion (pos 1) (pos 10) false (ok topology) initial).0 ≡ ok tt
unfolding update
update_test = refl

update-IsRefreshed_example :
    IsRefreshed whole whole_laws topology
      (update whole measurer insertion (pos 1) (pos 10) false (ok topology) initial).1
update-IsRefreshed_example =
    update-IsRefreshed whole whole_laws measurer insertion (pos 1) (pos 10) false
      (λ k a b n lat h. tt) (omega arith) topology initial update_test

abbrev flags : Flags
flags = record { verbose = false; summary = true; rounds = pos 1; iterations = pos 10 }

summarize_rankings-bounds_example :
    AllRankings whole
      (λ _. Unit)
      whole_order
      (summarize_rankings whole insertion ranking).min_latency_ns
      (summarize_rankings whole insertion ranking).max_latency_ns
      ranking
summarize_rankings-bounds_example =
    summarize_rankings-bounds whole (λ _. Unit) whole_order insertion ranking tt tt
      ((tt, (tt, tt)), ((tt, (tt, tt)), ((tt, (tt, tt)), tt)))

summary_test : (summarize_rankings whole insertion ranking).median_latency_ns ≡ 40
unfolding summarize_rankings insertion_sort
summary_test = refl

abbrev one_cpu : List (CoreRanking ℕ)
one_cpu = record { cpu = pos 0; ranking = [] } ∷ []

summarize_rankings-no_socket_example : (summarize_rankings whole insertion one_cpu).socket_count ≡ 0
summarize_rankings-no_socket_example =
    summarize_rankings-no_socket whole insertion one_cpu (refl, tt)

adaptive_cpu_info_parameters-antitone_example :
    ((adaptive_cpu_info_parameters 40).0 ≤ (adaptive_cpu_info_parameters 8).0)
    × ((adaptive_cpu_info_parameters 40).1 ≤ (adaptive_cpu_info_parameters 8).1)
    × (0 < (adaptive_cpu_info_parameters 40).0)
    × (0 < (adaptive_cpu_info_parameters 40).1)
adaptive_cpu_info_parameters-antitone_example =
    adaptive_cpu_info_parameters-antitone 8 40 (omega arith)

abbrev three_rounds : Environment
three_rounds key = if key ==ᵇ codes "PCA_ROUNDS" then some (itoa (pos 3)) else some (itoa (pos 500))

load-itoa_example :
    ((load three_rounds 8).rounds ≡ pos 3) × ((load three_rounds 8).iterations ≡ pos 500)
load-itoa_example = load-itoa three_rounds 8 3 500 (omega arith) (omega arith) first second
  where
    first : three_rounds (codes "PCA_ROUNDS") ≡ some (itoa (pos 3))
    first = unfold ◌==ᵇ◌ in refl

    second : three_rounds (codes "PCA_ITERATIONS") ≡ some (itoa (pos 500))
    second = unfold ◌==ᵇ◌ in refl
