-- ===== src/CpuInfo/Selection/Outcome.antt =====
-- What one call of `SelectCPUs` does, on every branch.
use native.Mathlib.Nat.{mod-lt}
use proxmox_cpu_affinity.Base.{
  ℕ, zero, suc, ◌+◌, ◌%◌, ◌≤◌, ◌<◌, ℤ, pos, negsuc, ==ℤ_iff, rounds_of, ltb, ◌==◌, map-take,
  nil_of_length, List, [], ◌∷◌, length, get_elem?, get_elem?_total, take, map, some, none, ◌==ℤ◌,
  ◌≢◌, Result, ok, err, lookup, insert, true, ◌≡◌, refl, ap, ◌∙◌, inl, inr, arith, Option-cases,
  Bool-cases,
}
use proxmox_cpu_affinity.CpuInfo.Types.{
  Neighbor, CoreRanking, CpuInfo, CpuInfoError, cache_empty, requested_not_positive,
  requested_exceeds,
}
use proxmox_cpu_affinity.CpuInfo.Selection.{reuse, neighbors, assign, fresh, select_cpus}

module _ {F : Type 0} where
  -- A core and its neighbors, the nearest first.
  abbrev pub by_distance : CoreRanking F → List ℤ
  by_distance r = r.cpu ∷ map (λ n. n.cpu) r.ranking

  abbrev pub next_index : CpuInfo F → ℕ
  next_index c = (c.last_index + 1) % length c.cache

  -- The state after `cores` were chosen for `vmid`.
  abbrev pub placed_state : ℤ → List ℤ → CpuInfo F → CpuInfo F
  placed_state vmid cores c = record c {
    last_index = next_index c;
    selections = insert vmid cores c.selections;
  }

  -- There is a ranking, and the VM holds no selection of the size that is requested.
  pub record NotHeld (vmid requested : ℤ) (c : CpuInfo F) : Type 0 where
    pub ranked : 0 < length c.cache
    pub unheld :
        (cores : List ℤ) → lookup vmid c.selections ≡ some cores → pos (length cores) ≢ requested

  -- The cases of a call, of which no two hold at once.
  pub data Outcome (vmid requested : ℤ) (c : CpuInfo F)
      (r : Result CpuInfoError (List ℤ) × CpuInfo F) : Type 0 where
    no_ranking : c.cache ≡ [] → r ≡ (err cache_empty, c) → Outcome vmid requested c r
    kept :
        (cores : List ℤ)
        → 0 < length c.cache
        → lookup vmid c.selections ≡ some cores
        → pos (length cores) ≡ requested
        → r ≡ (ok cores, c)
        → Outcome vmid requested c r
    too_few :
        NotHeld vmid requested c
        → rounds_of requested ≡ 0
        → r ≡ (err requested_not_positive, c)
        → Outcome vmid requested c r
    too_many :
        (n : ℕ)
        → NotHeld vmid requested c
        → requested ≡ pos n
        → length c.cache < n
        → r ≡ (err (requested_exceeds requested (length c.cache)), c)
        → Outcome vmid requested c r
    placed :
        (n : ℕ) (primary : CoreRanking F)
        → NotHeld vmid requested c
        → requested ≡ pos n
        → 0 < n
        → n ≤ length c.cache
        → get_elem? c.cache (next_index c) ≡ some primary
        → r
          ≡ (ok (take n (by_distance primary)), placed_state vmid (take n (by_distance primary)) c)
        → Outcome vmid requested c r

  neighbors-take :
      (k i m : ℕ) (ns : List (Neighbor F))
      → k + i ≡ m
      → neighbors (pos (suc m)) i ns ≡ map (λ n. n.cpu) (take k ns)
  unfolding neighbors
  neighbors-take zero i m [] h = refl
  neighbors-take (suc k) i m [] h = refl
  neighbors-take zero i m (n ∷ ns) h = ground arith
  neighbors-take (suc k) i m (n ∷ ns) h =
      ground (arith, neighbors-take k (suc i) m ns (omega arith))

  -- The loop takes the nearest neighbors, one fewer than requested.
  chosen-take :
      (m : ℕ) (primary : CoreRanking F)
      → primary.cpu ∷ neighbors (pos (suc m)) 0 primary.ranking ≡ take (suc m) (by_distance primary)
  chosen-take m primary =
      ap (◌∷◌ primary.cpu) (
        neighbors-take m 0 m primary.ranking (omega arith)
        ∙ map-take (λ n. n.cpu) m primary.ranking)

  assign-Outcome :
      (vmid : ℤ) (m : ℕ) (c : CpuInfo F)
      → NotHeld vmid (pos (suc m)) c
      → suc m ≤ length c.cache
      → Outcome vmid (pos (suc m)) c (assign vmid (pos (suc m)) c)
  unfolding assign
  assign-Outcome vmid m c v fits =
      let (primary, found) = get_elem?_total c.cache (next_index c) (mod-lt _ (omega arith)) in
      placed (suc m) primary v refl (omega arith) fits found
        (rw (found, assign, chosen-take m primary))

  fresh-Outcome :
      (vmid requested : ℤ) (c : CpuInfo F)
      → NotHeld vmid requested c
      → Outcome vmid requested c (fresh vmid requested c)
  unfolding fresh
  fresh-Outcome vmid (negsuc n) c v = too_few v refl refl
  fresh-Outcome vmid (pos zero) c v = too_few v refl refl
  fresh-Outcome vmid (pos (suc m)) c v =
      let positive : ltb 0 (suc m) ≡ true = ground arith in
      elim (Bool-cases (ltb (length c.cache) (suc m))) [
        | inl e ↦ too_many (suc m) v refl (ground arith) (rw (positive, e))
        | inr e ↦ rw (positive, e) (assign-Outcome vmid m c v (ground arith))
      ]

  reuse-kept :
      (vmid requested : ℤ) (c : CpuInfo F) (cores : List ℤ)
      → reuse vmid requested c ≡ some cores
      → (lookup vmid c.selections ≡ some cores) × (pos (length cores) ≡ requested)
  unfolding reuse
  reuse-kept vmid requested c cores h = elim (Option-cases (lookup vmid c.selections)) [
    | inl e ↦ ground arith
    | inr (xs, e) ↦ ground (arith, ==ℤ_iff (pos (length xs)) requested)
  ]

  reuse-none :
      (vmid requested : ℤ) (c : CpuInfo F) (cores : List ℤ)
      → reuse vmid requested c ≡ none
      → lookup vmid c.selections ≡ some cores
      → pos (length cores) ≢ requested
  unfolding reuse
  reuse-none vmid requested c cores h q e =
      let same : (pos (length cores) ==ℤ requested) ≡ true =
        (==ℤ_iff (pos (length cores)) requested).1 e in
      cc (rw (q, same, reuse) at h)

  -- Each call of `SelectCPUs` takes one of five ways. It fails and changes nothing when there is
  -- no ranking, when no CPU or a negative number is requested, or when there are too few; it hands
  -- out the VM's earlier selection again exactly when the size is the same, and changes nothing; and
  -- otherwise it moves on to the next core, returns that core and its nearest neighbors, as many as
  -- requested, and stores them for the VM. The index is never out of range.
  pub select_cpus-Outcome :
      (vmid requested : ℤ) (c : CpuInfo F) → Outcome vmid requested c (select_cpus vmid requested c)
  unfolding select_cpus
  select_cpus-Outcome vmid requested c = elim (Bool-cases (length c.cache == 0)) [
    | inl e ↦ rw e (no_ranking (nil_of_length c.cache (ground arith)) refl)
    | inr e ↦ elim (Option-cases (reuse vmid requested c)) [
      | inl q ↦
          rw (e, q, select_cpus)
            (fresh-Outcome vmid requested c (record {
              ranked = ground arith;
              unheld = λ cores. reuse-none vmid requested c cores q;
            }))
      | inr (cores, q) ↦
          let (found, fits) = reuse-kept vmid requested c cores q in
          rw (e, q, select_cpus) (kept cores (ground arith) found fits refl)
    ]
  ]
