-- ===== src/CpuInfo/History.antt =====
-- The operations on the shared `CPUInfo`, in any order. `Update` measures without the lock, so an
-- update is one step at the moment when it puts its results in, whatever came in between; so is an
-- update that `CalculateRanking` stopped waiting for.
use mathlib.Core.List.{Nodup, Nodup-nil}
use proxmox_cpu_affinity.Base.{ℕ, ℤ, List, Bool, Result, ok, SliceSort, ◌≡◌, refl, inl}
use proxmox_cpu_affinity.CpuInfo.Floats.{Float64}
use proxmox_cpu_affinity.CpuInfo.Types.{CoreInfo, Neighbor, CoreRanking, CpuInfo, initial}
use proxmox_cpu_affinity.CpuInfo.Selection.{select_cpus, install}
use proxmox_cpu_affinity.CpuInfo.Selection.Invariant.{
  IsConsistent, IsPlacement, select_cpus-IsConsistent, select_cpus-IsPlacement,
  install-IsConsistent,
}
use proxmox_cpu_affinity.CpuInfo.Update.{measure_all}
use proxmox_cpu_affinity.CpuInfo.Update.Ranking.{topology_cpus, measure_all-IsRanked}

module _ (f : Float64) (sorting : SliceSort (Neighbor f.F)) where
  pub data Step (c : CpuInfo f.F) : CpuInfo f.F → Type 0 where
    selects : (vmid requested : ℤ) → Step c (select_cpus vmid requested c).1
    refreshes :
        (measurer : ℕ → ℤ → ℤ → ℤ → Result ℕ f.F) (rounds iterations : ℤ) (callback : Bool)
        (topology : List CoreInfo) (results : List (CoreRanking f.F))
        → Nodup (topology_cpus topology)
        → measure_all f measurer sorting rounds iterations callback topology ≡ ok results
        → Step c (install results c)

  -- What the service can reach from the state in which it starts.
  pub data Reachable : CpuInfo f.F → Type 0 where
    start : Reachable initial
    next : {c d : CpuInfo f.F} → Reachable c → Step c d → Reachable d

  Step-IsConsistent : {c d : CpuInfo f.F} → Step c d → IsConsistent c → IsConsistent d
  Step-IsConsistent {c} (selects vmid requested) v = select_cpus-IsConsistent vmid requested c v
  Step-IsConsistent {c} (refreshes measurer rounds iterations callback topology results d e) v =
      install-IsConsistent results c
        (measure_all-IsRanked f measurer sorting rounds iterations callback topology d e)

  -- In every state that selections and updates reach, in any order: each core's list in the ranking
  -- holds every core of the ranking once, no core is ranked twice, the index of the last core is in
  -- range unless the ranking is empty, each selection is as many of the nearest cores of one core as
  -- it has CPUs, and no VM has two selections.
  pub Reachable-IsConsistent : {c : CpuInfo f.F} → Reachable c → IsConsistent c
  Reachable-IsConsistent start = record {
    ranked = record { complete = tt; distinct = Nodup-nil };
    in_range = inl refl;
    sound = tt;
    unique = tt;
  }
  Reachable-IsConsistent (next r s) = Step-IsConsistent s (Reachable-IsConsistent r)

  -- Whatever selections and updates came before, a successful selection returns as many CPUs as
  -- requested, no CPU twice, and only CPUs of the ranking that is in force.
  pub Reachable-IsPlacement :
      (c : CpuInfo f.F) (vmid requested : ℤ) (cores : List ℤ)
      → Reachable c
      → (select_cpus vmid requested c).0 ≡ ok cores
      → IsPlacement c.cache requested cores
  Reachable-IsPlacement c vmid requested cores r e =
      select_cpus-IsPlacement vmid requested c cores (Reachable-IsConsistent r) e
