-- ===== src/Cli/CpuInfoCmd/Printed.antt =====
-- What `cpuinfo` of cmd/cli/cpuinfo.go prints.
use proxmox_cpu_affinity.Base.{
  ℕ, ℤ, Bool, true, false, List, [], Result, ok, err, SliceSort, IsSorted, All, Perm, ◌≡◌, ◌⊎◌,
}
use proxmox_cpu_affinity.CpuInfo.Floats.{Float64, LatencyLaws}
use proxmox_cpu_affinity.CpuInfo.Types.{CoreInfo, Neighbor, CoreRanking, CpuInfoError, cache_empty}
use proxmox_cpu_affinity.CpuInfo.Selection.Outcome.{by_distance}
use proxmox_cpu_affinity.CpuInfo.Selection.Invariant.{cpus}
use proxmox_cpu_affinity.CpuInfo.Update.{measure_all, by_latency}
use proxmox_cpu_affinity.CpuInfo.Update.Ranking.{topology_cpus}
use proxmox_cpu_affinity.CpuInfo.Summary.{summarize_rankings}
use proxmox_cpu_affinity.Cli.CpuInfoCmd.{Output, full, brief, Flags}

-- One entry for each core of the topology, in its order, with all the other cores as its neighbors,
-- the nearest first.
pub record IsRankingOf (f : Float64) (topology : List CoreInfo) (rankings : List (CoreRanking f.F))
    : Type 0 where
  pub cores : cpus rankings ≡ topology_cpus topology
  pub complete : All (λ r. Perm (by_distance r) (topology_cpus topology)) rankings
  pub sorted : All (λ r. IsSorted (by_latency f) r.ranking) rankings

module _ (f : Float64) (sorting_lats : SliceSort f.F) (rankings : List (CoreRanking f.F)) where
  -- What is printed of a ranking: itself, or with --summary its summary.
  pub data IsOutput : Bool → Output f.F → Type 0 where
    printed : IsOutput false (full rankings)
    summarized : IsOutput true (brief (summarize_rankings f sorting_lats rankings))

module _ (f : Float64) (laws : LatencyLaws f) (measurer : ℕ → ℤ → ℤ → ℤ → Result ℕ f.F)
    (sorting : SliceSort (Neighbor f.F)) (sorting_lats : SliceSort f.F) (flags : Flags)
    (topology : List CoreInfo) where
  open laws use {IsLatency}

  abbrev Ends : Result CpuInfoError (Output f.F) → Type 0
  Ends r =
      ((e : CpuInfoError) × (measure_all f measurer sorting flags.rounds flags.iterations
            flags.verbose topology
          ≡ err e)
        × (r ≡ err e))
      ⊎ (topology ≡ []) × (r ≡ err cache_empty)
      ⊎ (rankings : List (CoreRanking f.F)) × (out : Output f.F) × (measure_all f measurer sorting
            flags.rounds flags.iterations flags.verbose topology
          ≡ ok rankings)
        × IsRankingOf f topology rankings
        × (r ≡ ok out)
        × IsOutput f sorting_lats rankings flags.summary out
