-- ===== src/Cli/CpuInfoCmd.antt =====
-- cmd/cli/cpuinfo.go: the command that measures the machine itself and prints the ranking. What it
-- writes to stderr, the progress and the spinner, is left out.
pub mod Printed
use proxmox_cpu_affinity.Base.{ℕ, ℤ, Bool, if◌then◌else◌, List, Result, ok, err, ◌>>=◌, SliceSort}
use proxmox_cpu_affinity.CpuInfo.Floats.{Float64}
use proxmox_cpu_affinity.CpuInfo.Types.{
  CoreInfo, Neighbor, CoreRanking, CpuInfo, CpuInfoError, initial,
}
use proxmox_cpu_affinity.CpuInfo.Selection.{get_core_ranking}
use proxmox_cpu_affinity.CpuInfo.Update.{update}
use proxmox_cpu_affinity.CpuInfo.Summary.{TopologyStats, summarize_rankings}

-- What the command encodes as JSON.
pub data Output (F : Type 0) : Type 0 where
  full : List (CoreRanking F) → Output F
  brief : TopologyStats F → Output F

-- The flags, whose defaults come from the configuration.
pub record Flags : Type 0 where
  pub verbose : Bool
  pub summary : Bool
  pub rounds : ℤ
  pub iterations : ℤ

unfoldable pub output_of :
    (f : Float64) → SliceSort f.F → Bool → List (CoreRanking f.F) → Output f.F
output_of f sorting_lats summary rankings =
    if summary then brief (summarize_rankings f sorting_lats rankings) else full rankings

module _ (f : Float64) (measurer : ℕ → ℤ → ℤ → ℤ → Result ℕ f.F)
    (sorting : SliceSort (Neighbor f.F)) (sorting_lats : SliceSort f.F) (flags : Flags) where
  -- `GetCoreRanking` and the rest of `RunE`, after `Update` returned.
  unfoldable pub show_ranking :
      Result CpuInfoError (Unit {0}) × CpuInfo f.F → Result CpuInfoError (Output f.F)
  unfolding output_of
  show_ranking (r, ci) = do
    u ← r
    rankings ← get_core_ranking ci
    ok (output_of f sorting_lats flags.summary rankings)

  -- `RunE`; the callback is there with --verbose.
  unfoldable pub cpu_info : Result ℕ (List CoreInfo) → Result CpuInfoError (Output f.F)
  unfolding update show_ranking
  cpu_info detector =
      show_ranking
        (update f measurer sorting flags.rounds flags.iterations flags.verbose detector initial)
