-- ===== src/CpuInfo/Selection.antt =====
-- `SelectCPUs`, `GetSelections`, `GetCoreRanking` and the locked end of `Update`, of
-- pkg/cpuinfo/cpuinfo.go. Each runs under the mutex, so each is one step on the state.
pub mod Outcome
pub mod Invariant
pub mod Stability
pub mod Rotation
pub mod Copy
use proxmox_cpu_affinity.Base.{
  ℕ, zero, suc, ◌+◌, ◌%◌, ℤ, pos, negsuc, ◌==ℤ◌, ltb_ℤ, ◌==◌, if◌then◌else◌, List, [], ◌∷◌, length,
  get_elem?, Option, none, some, not, Result, ok, err, lookup, insert,
}
use proxmox_cpu_affinity.CpuInfo.Types.{
  Neighbor, CoreRanking, CpuInfo, CpuInfoError, cache_empty, requested_not_positive,
  requested_exceeds, index_panic,
}

-- `n - 1` on `int`, for an `n` that is above the least one.
sub_one : ℤ → ℤ
sub_one (pos zero) = negsuc 0
sub_one (pos (suc n)) = pos n
sub_one (negsuc n) = negsuc (suc n)

-- `copy(cpusCopy, cpus)` into a slice of the same length.
copy_cpus : List ℤ → List ℤ
copy_cpus [] = []
copy_cpus (x ∷ xs) = x ∷ copy_cpus xs

copy_entries : List (ℤ × List ℤ) → List (ℤ × List ℤ) → List (ℤ × List ℤ)
unfolding copy_cpus
copy_entries [] result = result
copy_entries ((vmid, cpus) ∷ m) result = copy_entries m (insert vmid (copy_cpus cpus) result)

module _ {F : Type 0} where
  -- A selection of the same size for this VM, if there is one.
  reuse : ℤ → ℤ → CpuInfo F → Option (List ℤ)
  reuse vmid requested c = elim (lookup vmid c.selections) [
    | none ↦ none
    | some cores ↦ if pos (length cores) ==ℤ requested then some cores else none
  ]

  -- `for i := 0; i < requestedCPUs-1 && i < len(primary.Ranking); i++`, which appends a CPU a round.
  neighbors : ℤ → ℕ → List (Neighbor F) → List ℤ
  unfolding sub_one
  neighbors requested i [] = []
  neighbors requested i (n ∷ ns) =
      if ltb_ℤ (pos i) (sub_one requested) then n.cpu ∷ neighbors requested (suc i) ns else []

  assign : ℤ → ℤ → CpuInfo F → Result CpuInfoError (List ℤ) × CpuInfo F
  unfolding neighbors
  assign vmid requested c =
      let last = (c.last_index + 1) % length c.cache in
      elim (get_elem? c.cache last) [
        | none ↦ (err index_panic, record c { last_index = last })
        | some primary ↦
            let res = primary.cpu ∷ neighbors requested 0 primary.ranking in
            (ok res, record c { last_index = last; selections = insert vmid res c.selections })
      ]

  fresh : ℤ → ℤ → CpuInfo F → Result CpuInfoError (List ℤ) × CpuInfo F
  unfolding assign
  fresh vmid requested c =
      if not (ltb_ℤ (pos 0) requested)
      then (err requested_not_positive, c)
      else if ltb_ℤ (pos (length c.cache)) requested
      then (err (requested_exceeds requested (length c.cache)), c)
      else assign vmid requested c

  unfoldable pub select_cpus : ℤ → ℤ → CpuInfo F → Result CpuInfoError (List ℤ) × CpuInfo F
  unfolding reuse fresh
  select_cpus vmid requested c =
      if length c.cache == 0 then (err cache_empty, c) else elim (reuse vmid requested c) [
        | some cores ↦ (ok cores, c)
        | none ↦ fresh vmid requested c
      ]

  unfoldable pub get_core_ranking : CpuInfo F → Result CpuInfoError (List (CoreRanking F))
  get_core_ranking c = if length c.cache == 0 then err cache_empty else ok c.cache

  unfoldable pub get_selections : CpuInfo F → List (ℤ × List ℤ)
  unfolding copy_entries
  get_selections c = copy_entries c.selections []

  -- What `Update` does once it holds the lock.
  unfoldable pub install : List (CoreRanking F) → CpuInfo F → CpuInfo F
  install results c = record {
    cache = results;
    last_index = if length results == 0 then 0 else c.last_index % length results;
    selections = [];
  }
