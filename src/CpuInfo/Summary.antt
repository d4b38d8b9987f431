-- ===== src/CpuInfo/Summary.antt =====
-- `SummarizeRankings` of pkg/cpuinfo/cpuinfo.go.
pub mod Bounds
use proxmox_cpu_affinity.Base.{
  ℕ, zero, suc, ◌+◌, ◌/◌, ◌^◌, ℤ, pos, negsuc, Bool, ◌==◌, if◌then◌else◌, List, [], ◌∷◌, ◌++◌,
  length, Option, none, some, SliceSort, insert, get_elem?,
}
use proxmox_cpu_affinity.CpuInfo.Floats.{Float64}
use proxmox_cpu_affinity.CpuInfo.Types.{Neighbor, CoreRanking}

pub record TopologyStats (F : Type 0) : Type 0 where
  pub cpu_count : ℕ
  pub socket_count : ℕ
  pub min_latency_ns : F
  pub max_latency_ns : F
  pub median_latency_ns : F
  pub mean_latency_ns : F

-- The variables of the loop. A `map[int]struct{}` is a map to `Unit`.
pub record Tally (F : Type 0) : Type 0 where
  pub min : F
  pub max : F
  pub lats : List F
  pub total : F
  pub count : ℕ
  pub sockets : List (ℤ × Unit {0})
  pub cpus : List (ℤ × Unit {0})

module _ (f : Float64) where
  open f use {F, of_int, add, div, less}

  -- `1e18` and `-1.0`, which a `float64` holds exactly.
  abbrev pub start_min : F
  start_min = of_int (pos (10 ^ 18))

  abbrev pub start_max : F
  start_max = of_int (negsuc 0)

  tally_neighbor : Tally F → Neighbor F → Tally F
  tally_neighbor t n = record {
    min = if less n.latency_ns t.min then n.latency_ns else t.min;
    max = if less t.max n.latency_ns then n.latency_ns else t.max;
    lats = t.lats ++ n.latency_ns ∷ [];
    total = add t.total n.latency_ns;
    count = t.count + 1;
    sockets = insert n.socket tt t.sockets;
    cpus = insert n.cpu tt t.cpus;
  }

  tally_neighbors : Tally F → List (Neighbor F) → Tally F
  unfolding tally_neighbor
  tally_neighbors t [] = t
  tally_neighbors t (n ∷ ns) = tally_neighbors (tally_neighbor t n) ns

  tally_rankings : Tally F → List (CoreRanking F) → Tally F
  unfolding tally_neighbors
  tally_rankings t [] = t
  tally_rankings t (r ∷ rs) =
      tally_rankings (tally_neighbors (record t { cpus = insert r.cpu tt t.cpus }) r.ranking) rs

  start_tally : Tally F
  start_tally = record {
    min = start_min;
    max = start_max;
    lats = [];
    total = of_int (pos 0);
    count = 0;
    sockets = [];
    cpus = [];
  }

  -- `TopologyStats{}`.
  zero_stats : TopologyStats F
  zero_stats = record {
    cpu_count = 0;
    socket_count = 0;
    min_latency_ns = of_int (pos 0);
    max_latency_ns = of_int (pos 0);
    median_latency_ns = of_int (pos 0);
    mean_latency_ns = of_int (pos 0);
  }

  -- `lats[k]`; the value past the end is never read.
  at_index : List F → ℕ → F
  at_index [] k = of_int (pos 0)
  at_index (x ∷ xs) zero = x
  at_index (x ∷ xs) (suc k) = at_index xs k

  module _ (sorting : SliceSort F) where
    finish : Tally F → TopologyStats F
    unfolding zero_stats at_index
    finish t =
        if t.count == 0
        then record zero_stats { cpu_count = length t.cpus; socket_count = length t.sockets }
        else record {
          cpu_count = length t.cpus;
          socket_count = length t.sockets;
          min_latency_ns = t.min;
          max_latency_ns = t.max;
          median_latency_ns = at_index (sorting.sort less t.lats) (length t.lats / 2);
          mean_latency_ns = div t.total (of_int (pos t.count));
        }

    unfoldable pub summarize_rankings : List (CoreRanking F) → TopologyStats F
    unfolding finish start_tally tally_rankings zero_stats
    summarize_rankings [] = zero_stats
    summarize_rankings (r ∷ rs) = finish (tally_rankings start_tally (r ∷ rs))
