-- ===== src/CpuInfo/Types.antt =====
-- The data of pkg/cpuinfo/cpuinfo.go: topology, ranking, and the state behind the mutex. Latencies
-- are Go's `float64`, a type `F` here: the selection never looks at them.
use proxmox_cpu_affinity.Base.{ℕ, ℤ, List, []}

pub record CoreInfo : Type 0 where
  pub cpu : ℤ
  pub socket : ℤ
  pub core : ℤ

pub record Neighbor (F : Type 0) : Type 0 where
  pub cpu : ℤ
  pub socket : ℤ
  pub core : ℤ
  pub latency_ns : F

pub record CoreRanking (F : Type 0) : Type 0 where
  pub cpu : ℤ
  pub ranking : List (Neighbor F)

-- `detect_failed` and `measure_failed` carry the error of the detector and of the measurer, and
-- `index_panic` is Go's panic on an index out of range.
pub data CpuInfoError : Type 0 where
  cache_empty requested_not_positive : CpuInfoError
  requested_exceeds : ℤ → ℕ → CpuInfoError
  detect_failed : ℕ → CpuInfoError
  measure_failed : ℤ → ℤ → ℕ → CpuInfoError
  index_panic : CpuInfoError

-- The fields of `CPUInfo` that the mutex guards; the detector and the measurer are parameters.
pub record CpuInfo (F : Type 0) : Type 0 where
  pub cache : List (CoreRanking F)
  pub last_index : ℕ
  pub selections : List (ℤ × List ℤ)

-- The state that `New` returns.
abbrev pub initial : {F : Type 0} → CpuInfo F
initial = record { cache = []; last_index = 0; selections = [] }
