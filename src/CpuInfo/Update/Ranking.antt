-- ===== src/CpuInfo/Update/Ranking.antt =====
-- The shape of a new ranking: every core of the topology once, each with all others as its
-- neighbors, the nearest first.
use mathlib.Core.List.{Nodup}
use mathlib.Core.List.Perm
use proxmox_cpu_affinity.Base.{
  ℕ, zero, suc, ◌+◌, ◌<◌, ℤ, ◌==◌, List, [], ◌∷◌, map, length, get_elem?, drop, get_elem?_of_drop,
  drop_next, some, Result, ok, err, Result-cases, >>=-eq-ok, eq_of_ok, SliceSort, All, Perm, ◌≡◌,
  refl, true, false, ap, sym, subst, inl, inr, arith, Bool,
}
use proxmox_cpu_affinity.CpuInfo.Floats.{Float64}
use proxmox_cpu_affinity.CpuInfo.Types.{CoreInfo, Neighbor, CoreRanking, CpuInfo}
use proxmox_cpu_affinity.CpuInfo.Selection.Outcome.{by_distance}
use proxmox_cpu_affinity.CpuInfo.Selection.Invariant.{
  cpus, IsRanked, IsConsistent, install-IsConsistent,
}
use proxmox_cpu_affinity.CpuInfo.Update.{
  neighbors_from, rank_from, by_latency, measure_all, measure, Measuring, update,
}

abbrev pub topology_cpus : List CoreInfo → List ℤ
topology_cpus = map (λ t. t.cpu)

module _ (f : Float64) (sorting : SliceSort (Neighbor f.F)) (rounds : ℤ) (width : ℕ)
    (sums : List f.F) where
  abbrev neighbor_cpus : List (Neighbor f.F) → List ℤ
  neighbor_cpus = map (λ n. n.cpu)

  neighbors_past :
      (i j : ℕ) (rest : List CoreInfo)
      → i < j
      → neighbor_cpus (neighbors_from f sorting rounds width sums i j rest) ≡ topology_cpus rest
  unfolding neighbors_from
  neighbors_past i j [] h = refl
  neighbors_past i j (dst ∷ rest) h = ground (arith, neighbors_past i (suc j) rest (omega arith))

  neighbors_from-perm :
      (k i j : ℕ) (rest : List CoreInfo) {src : CoreInfo}
      → k + j ≡ i
      → get_elem? rest k ≡ some src
      → Perm
          (src.cpu ∷ neighbor_cpus (neighbors_from f sorting rounds width sums i j rest))
          (topology_cpus rest)
  unfolding neighbors_from
  neighbors_from-perm k i j [] h e = cc
  neighbors_from-perm zero i j (dst ∷ rest) {src} h e =
      let hit : (i == j) ≡ true = ground arith in
      let same : dst ≡ src = cc in
      rw (hit, neighbors_past i (suc j) rest (omega arith))
        (subst (λ (t : CoreInfo). Perm (t.cpu ∷ topology_cpus rest) (dst.cpu ∷ topology_cpus rest))
          same Perm.rfl)
  neighbors_from-perm (suc k) i j (dst ∷ rest) {src} h e =
      let miss : (i == j) ≡ false = ground arith in
      rw miss (
        Perm.trans (Perm.swap _ _ _)
          (Perm.cons dst.cpu (neighbors_from-perm k i (suc j) rest (omega arith) e)))

  pub cpus-rank_from :
      (topology : List CoreInfo) (i : ℕ) (rest : List CoreInfo)
      → cpus (rank_from f sorting rounds width sums topology i rest) ≡ topology_cpus rest
  unfolding rank_from
  cpus-rank_from topology i [] = refl
  cpus-rank_from topology i (src ∷ rest) = ap (◌∷◌ src.cpu) (cpus-rank_from topology (suc i) rest)

  -- A property of each core with the sorted list of its neighbors.
  pub rank_from-All {ℓ} :
      (P : CoreRanking f.F → Type ℓ) (topology : List CoreInfo)
      → ((i : ℕ) (src : CoreInfo)
          → get_elem? topology i ≡ some src
          → P (record {
            cpu = src.cpu;
            ranking =
                sorting.sort
                  (by_latency f)
                  (neighbors_from f sorting rounds width sums i 0 topology);
          }))
      → (i : ℕ) (rest : List CoreInfo) → drop i topology ≡ rest
      → All P (rank_from f sorting rounds width sums topology i rest)
  unfolding rank_from
  rank_from-All P topology each i [] e = tt
  rank_from-All P topology each i (src ∷ rest) e = (
    each i src (get_elem?_of_drop topology i e),
    rank_from-All P topology each (suc i) rest (drop_next topology i e),
  )

  -- Each core with its neighbors is the whole topology.
  pub rank_from_complete :
      (topology : List CoreInfo)
      → All
          (λ r. Perm (by_distance r) (topology_cpus topology))
          (rank_from f sorting rounds width sums topology 0 topology)
  rank_from_complete topology =
      rank_from-All _ topology
        (λ i src e.
          Perm.trans
            (Perm.cons src.cpu (Perm.map (λ n. n.cpu) (sorting.sort-perm (by_latency f) _)))
            (neighbors_from-perm i i 0 topology (omega arith) e))
        0 topology refl

  rank_from-IsRanked :
      (topology : List CoreInfo)
      → Nodup (topology_cpus topology)
      → IsRanked (rank_from f sorting rounds width sums topology 0 topology)
  rank_from-IsRanked topology d = record {
    complete = rw (cpus-rank_from topology 0 topology) (rank_from_complete topology);
    distinct = rw (cpus-rank_from topology 0 topology) d;
  }

module _ (f : Float64) (measurer : ℕ → ℤ → ℤ → ℤ → Result ℕ f.F)
    (sorting : SliceSort (Neighbor f.F)) (rounds iterations : ℤ) (callback : Bool) where
  pub measure_all-rank_from :
      (topology : List CoreInfo) {results : List (CoreRanking f.F)}
      → measure_all f measurer sorting rounds iterations callback topology ≡ ok results
      → (st : Measuring f.F) × (measure f measurer sorting rounds iterations callback topology
          ≡ ok st)
        × (results ≡ rank_from f sorting rounds (length topology) st.lat_sums topology 0 topology)
  unfolding measure_all
  measure_all-rank_from topology e =
      let (st, m, q) =
        >>=-eq-ok (measure f measurer sorting rounds iterations callback topology) _ e in
      (st, m, sym (eq_of_ok q))

  pub measure_all-IsRanked :
      (topology : List CoreInfo) {results : List (CoreRanking f.F)}
      → Nodup (topology_cpus topology)
      → measure_all f measurer sorting rounds iterations callback topology ≡ ok results
      → IsRanked results
  measure_all-IsRanked topology d e =
      let (st, _, q) = measure_all-rank_from topology e in
      rw q (rank_from-IsRanked f sorting rounds (length topology) st.lat_sums topology d)

  -- The detector names no CPU twice.
  abbrev pub DetectsDistinct : Result ℕ (List CoreInfo) → Type 0
  DetectsDistinct (ok topology) = Nodup (topology_cpus topology)
  DetectsDistinct (err e) = Unit

  -- If the detector names no CPU twice, `Update` keeps the state consistent: it either fails and leaves it alone, or puts in a ranking
  -- in which every core of the topology occurs once and has all the others as its neighbors.
  pub update-IsConsistent :
      (detector : Result ℕ (List CoreInfo)) (c : CpuInfo f.F)
      → DetectsDistinct detector
      → IsConsistent c
      → IsConsistent (update f measurer sorting rounds iterations callback detector c).1
  unfolding update
  update-IsConsistent (err e) c d v = v
  update-IsConsistent (ok topology) c d v =
      elim (Result-cases (measure_all f measurer sorting rounds iterations callback topology)) [
        | inl (results, e) ↦
            rw (e, update) (install-IsConsistent results c (measure_all-IsRanked topology d e))
        | inr (failure, e) ↦ rw (e, update) v
      ]
