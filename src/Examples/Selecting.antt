-- ===== src/Examples/Selecting.antt =====
-- The choice of CPUs on the machine of the examples.
use proxmox_cpu_affinity.Base.{
  ℕ, ◌<◌, ◌≤◌, pos, [], ◌∷◌, ok, lookup, ◌≡◌, refl, arith, false, Perm, insertion,
}
use proxmox_cpu_affinity.CpuInfo.Selection.{install, select_cpus}
use proxmox_cpu_affinity.CpuInfo.Selection.Outcome.{Outcome, select_cpus-Outcome}
use proxmox_cpu_affinity.CpuInfo.Selection.Invariant.{cpus, IsConsistent, IsPlacement}
use proxmox_cpu_affinity.CpuInfo.Selection.Stability.{select_all, select_cpus_stable}
use proxmox_cpu_affinity.CpuInfo.Selection.Rotation.{starts, IsNew, starts-perm}
use proxmox_cpu_affinity.CpuInfo.Contract.{Allowed, view, events_of, events_of-Allowed}
use proxmox_cpu_affinity.CpuInfo.History.{
  Reachable, start, next, selects, refreshes, Reachable-IsConsistent, Reachable-IsPlacement,
}
use proxmox_cpu_affinity.Examples.Machine.{
  whole, topology, measurer, ranking, ready, measure_all_test, all_distinct-Nodup, pos-ne,
}

-- VM 100 gets its CPU 1 and the nearest to it.
select_test : (select_cpus (pos 100) (pos 2) ready).0 ≡ ok (pos 1 ∷ pos 2 ∷ [])
unfolding select_cpus lookup
select_test = refl

-- A request for four CPUs is more than there are.
too_many_test : (select_cpus (pos 100) (pos 4) ready).1 ≡ ready
unfolding select_cpus lookup
too_many_test = refl

pub reached : Reachable whole insertion ready
unfolding install
reached = next start (
    refreshes measurer (pos 1) (pos 10) false topology ranking (all_distinct-Nodup _ refl)
      measure_all_test)

ready-IsConsistent : IsConsistent ready
ready-IsConsistent = Reachable-IsConsistent whole insertion reached

select_cpus-Outcome_example : Outcome (pos 100) (pos 2) ready (select_cpus (pos 100) (pos 2) ready)
select_cpus-Outcome_example = select_cpus-Outcome (pos 100) (pos 2) ready

-- VM 101 asks for three CPUs in between.
select_cpus_stable_example :
    let later = select_all ((pos 101, pos 3) ∷ []) (select_cpus (pos 100) (pos 2) ready).1 in
    select_cpus (pos 100) (pos 2) later ≡ (ok (pos 1 ∷ pos 2 ∷ []), later)
select_cpus_stable_example =
    select_cpus_stable (pos 100) (pos 2) ready (pos 1 ∷ pos 2 ∷ []) ((pos 101, pos 3) ∷ [])
      ready-IsConsistent select_test (pos-ne 101 100 refl, tt)

starts-perm_example :
    Perm (starts ((pos 100, 1) ∷ (pos 101, 2) ∷ (pos 102, 3) ∷ []) ready) (cpus ranking)
starts-perm_example =
    starts-perm ((pos 100, 1) ∷ (pos 101, 2) ∷ (pos 102, 3) ∷ []) ready (omega arith)
      ((pos-ne 101 100 refl, (pos-ne 102 100 refl, tt)), ((pos-ne 102 101 refl, tt), (tt, tt)))
      (
        new 100 1 (omega arith) (omega arith),
        (new 101 2 (omega arith) (omega arith), (new 102 3 (omega arith) (omega arith), tt)),
      )
      refl
  where
    new : (vmid n : ℕ) → 0 < n → n ≤ 3 → IsNew ready (pos vmid, n)
    new vmid n h k = (unfold lookup in refl, h, k)

Reachable-IsPlacement_example : IsPlacement ranking (pos 2) (pos 1 ∷ pos 2 ∷ [])
Reachable-IsPlacement_example =
    Reachable-IsPlacement whole insertion ready (pos 100) (pos 2) (pos 1 ∷ pos 2 ∷ []) reached
      select_test

-- VM 100 asks for two CPUs, and then for four.
served :
    Reachable whole insertion
      (select_cpus (pos 100) (pos 4) (select_cpus (pos 100) (pos 2) ready).1).1
served = next (next reached (selects (pos 100) (pos 2))) (selects (pos 100) (pos 4))

events_of-Allowed_example :
    Allowed
      (events_of whole insertion served)
      (view (select_cpus (pos 100) (pos 4) (select_cpus (pos 100) (pos 2) ready).1).1)
events_of-Allowed_example = events_of-Allowed whole insertion served

Reachable-IsConsistent_example : IsConsistent ready
Reachable-IsConsistent_example = Reachable-IsConsistent whole insertion reached
