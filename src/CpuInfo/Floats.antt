-- ===== src/CpuInfo/Floats.antt =====
-- Go's `float64`, as the code uses it: a type with the operations that the code calls. What a
-- theorem needs of them it names as a hypothesis.
use proxmox_cpu_affinity.Base.{ℕ, ◌<◌, ℤ, pos, Bool, StrictWeakOrder}

pub record Float64 : Type 1 where
  pub F : Type 0
  pub of_int : ℤ → F
  pub add : F → F → F
  pub div : F → F → F
  pub less : F → F → Bool

-- The values that a latency takes: numbers that are at least 0, where NaN is none. They are closed
-- under what the code does with them, and ordered.
pub record LatencyLaws (f : Float64) : Type 1 where
  pub IsLatency : f.F → Type 0
  pub zero-IsLatency : IsLatency (f.of_int (pos 0))
  pub add-IsLatency : (a b : f.F) → IsLatency a → IsLatency b → IsLatency (f.add a b)
  pub div-IsLatency :
      (a : f.F) (n : ℕ) → IsLatency a → 0 < n → IsLatency (f.div a (f.of_int (pos n)))
  pub order : StrictWeakOrder IsLatency f.less
