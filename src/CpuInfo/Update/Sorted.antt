-- ===== src/CpuInfo/Update/Sorted.antt =====
-- A successful `Update`, where the measurements are latencies: what it puts in.
use proxmox_cpu_affinity.Base.{
  ℕ, zero, suc, ◌+◌, ◌*◌, ◌<◌, ℤ, pos, negsuc, rounds_of, ◌>>=◌, ◌==◌, Bool-cases, List, [], ◌∷◌,
  length, replicate, Result, ok, err, Result-cases, SliceSort, StrictWeakOrder, IsSorted, All, Perm,
  ◌≡◌, refl, inl, inr, arith, Bool, true, false,
}
use proxmox_cpu_affinity.CpuInfo.Floats.{Float64, LatencyLaws}
use proxmox_cpu_affinity.CpuInfo.Types.{CoreInfo, Neighbor, CoreRanking, CpuInfo, CpuInfoError}
use proxmox_cpu_affinity.CpuInfo.Selection.{install}
use proxmox_cpu_affinity.CpuInfo.Selection.Outcome.{by_distance}
use proxmox_cpu_affinity.CpuInfo.Selection.Invariant.{cpus}
use proxmox_cpu_affinity.CpuInfo.Update.{
  add_at, measure_link, measure_row, measure_rows, measure_rounds, report, sum_at, neighbors_from,
  by_latency, measure_all, measure, Measuring, update,
}
use proxmox_cpu_affinity.CpuInfo.Update.Ranking.{
  topology_cpus, rank_from-All, rank_from_complete, cpus-rank_from, measure_all-rank_from,
}

module _ (f : Float64) (laws : LatencyLaws f) where
  open f use {F}
  open laws use {IsLatency, zero-IsLatency, add-IsLatency, div-IsLatency, order}

  abbrev Sums : Measuring F → Type 0
  Sums st = All IsLatency st.lat_sums

  -- A successful run of a part of the loops keeps the sums latencies.
  abbrev Keeps : Result CpuInfoError (Measuring F) → Type 0
  Keeps (ok st) = Sums st
  Keeps (err e) = Unit

  add_at-IsLatency :
      (sums : List F) (k : ℕ) (lat : F)
      → IsLatency lat
      → All IsLatency sums
      → All IsLatency (add_at f sums k lat)
  unfolding add_at
  add_at-IsLatency [] k lat h a = tt
  add_at-IsLatency (s ∷ sums) zero lat h a = (add-IsLatency s lat a.0 h, a.1)
  add_at-IsLatency (s ∷ sums) (suc k) lat h a = (a.0, add_at-IsLatency sums k lat h a.1)

  replicate-IsLatency : (n : ℕ) → All IsLatency (replicate n (f.of_int (pos 0)))
  replicate-IsLatency zero = tt
  replicate-IsLatency (suc n) = (zero-IsLatency, replicate-IsLatency n)

  sum_at-IsLatency : (sums : List F) (k : ℕ) → All IsLatency sums → IsLatency (sum_at f sums k)
  unfolding sum_at
  sum_at-IsLatency [] k a = zero-IsLatency
  sum_at-IsLatency (s ∷ sums) zero a = a.0
  sum_at-IsLatency (s ∷ sums) (suc k) a = sum_at-IsLatency sums k a.1

  neighbors_from-IsLatency :
      (sorting : SliceSort (Neighbor F)) (rounds : ℤ) (width : ℕ) (sums : List F) (i j : ℕ)
      (rest : List CoreInfo)
      → 0 < rounds_of rounds
      → All IsLatency sums
      → All (λ n. IsLatency n.latency_ns) (neighbors_from f sorting rounds width sums i j rest)
  unfolding neighbors_from
  neighbors_from-IsLatency sorting (negsuc n) width sums i j rest h a = absurd (omega arith)
  neighbors_from-IsLatency sorting (pos n) width sums i j [] h a = tt
  neighbors_from-IsLatency sorting (pos n) width sums i j (dst ∷ rest) h a =
      let others = neighbors_from-IsLatency sorting (pos n) width sums i (suc j) rest h a in
      elim (Bool-cases (i == j)) [
        | inl e ↦ rw e others
        | inr e ↦ rw e (div-IsLatency _ n (sum_at-IsLatency sums (i * width + j) a) h, others)
      ]

  neighbor_order : StrictWeakOrder (λ (n : Neighbor F). IsLatency n.latency_ns) (by_latency f)
  neighbor_order = record {
    asymm = λ a b va vb. order.asymm a.latency_ns b.latency_ns va vb;
    le_trans = λ a b c va vb vc. order.le_trans a.latency_ns b.latency_ns c.latency_ns va vb vc;
  }

  module _ (measurer : ℕ → ℤ → ℤ → ℤ → Result ℕ F)
      (measured : (k : ℕ) (a b n : ℤ) (lat : F) → measurer k a b n ≡ ok lat → IsLatency lat)
      (iterations : ℤ) (topology : List CoreInfo) where
    measure_link-Keeps :
        (i : ℕ) (src : CoreInfo) (j : ℕ) (dst : CoreInfo) (st : Measuring F)
        → Sums st
        → Keeps (measure_link f measurer iterations topology i src j dst st)
    unfolding measure_link
    measure_link-Keeps i src j dst st a = elim (Bool-cases (i == j)) [
      | inl e ↦ rw e a
      | inr e ↦ rw e (elim (Result-cases (measurer st.calls src.cpu dst.cpu iterations)) [
        | inl (lat, q) ↦
            rw (q, measure_link) (add_at-IsLatency st.lat_sums _ lat (measured _ _ _ _ lat q) a)
        | inr (e, q) ↦ rw (q, measure_link) tt
      ])
    ]

    bind-Keeps :
        (m : Result CpuInfoError (Measuring F))
        (k : Measuring F → Result CpuInfoError (Measuring F))
        → Keeps m
        → ((st : Measuring F) → Sums st → Keeps (k st))
        → Keeps (m >>= k)
    bind-Keeps (ok st) k h g = g st h
    bind-Keeps (err e) k h g = tt

    measure_row-Keeps :
        (i : ℕ) (src : CoreInfo) (j : ℕ) (rest : List CoreInfo) (st : Measuring F)
        → Sums st
        → Keeps (measure_row f measurer iterations topology i src j rest st)
    unfolding measure_row
    measure_row-Keeps i src j [] st a = a
    measure_row-Keeps i src j (dst ∷ rest) st a =
        bind-Keeps (measure_link f measurer iterations topology i src j dst st) _
          (measure_link-Keeps i src j dst st a)
          (λ st' a'. measure_row-Keeps i src (suc j) rest st' a')

    measure_rows-Keeps :
        (i : ℕ) (rest : List CoreInfo) (st : Measuring F)
        → Sums st
        → Keeps (measure_rows f measurer iterations topology i rest st)
    unfolding measure_rows
    measure_rows-Keeps i [] st a = a
    measure_rows-Keeps i (src ∷ rest) st a =
        bind-Keeps (measure_row f measurer iterations topology i src 0 topology st) _
          (measure_row-Keeps i src 0 topology st a)
          (λ st' a'. measure_rows-Keeps (suc i) rest st' a')

    report-Sums :
        (callback : Bool) (r total : ℕ) (st : Measuring F)
        → Sums st
        → Sums (report f measurer iterations topology callback r total st)
    unfolding report
    report-Sums true r total st a = a
    report-Sums false r total st a = a

    measure_rounds-Keeps :
        (callback : Bool) (total left r : ℕ) (st : Measuring F)
        → Sums st
        → Keeps (measure_rounds f measurer iterations topology callback total left r st)
    unfolding measure_rounds
    measure_rounds-Keeps callback total zero r st a = a
    measure_rounds-Keeps callback total (suc left) r st a =
        bind-Keeps (measure_rows f measurer iterations topology 0 topology _) _
          (measure_rows-Keeps 0 topology _ (report-Sums callback (r + 1) total st a))
          (λ st' a'. measure_rounds-Keeps callback total left (r + 1) st' a')

  -- What `Update` leaves behind when it succeeds.
  pub record IsRefreshed (topology : List CoreInfo) (c : CpuInfo F) : Type 0 where
    pub cores : cpus c.cache ≡ topology_cpus topology
    pub complete : All (λ r. Perm (by_distance r) (topology_cpus topology)) c.cache
    pub sorted : All (λ r. IsSorted (by_latency f) r.ranking) c.cache
    pub forgotten : c.selections ≡ []

  module _ (measurer : ℕ → ℤ → ℤ → ℤ → Result ℕ F) (sorting : SliceSort (Neighbor F))
      (rounds iterations : ℤ) (callback : Bool)
      (measured : (k : ℕ) (a b n : ℤ) (lat : F) → measurer k a b n ≡ ok lat → IsLatency lat)
      (some_rounds : 0 < rounds_of rounds) where
    measure-Sums :
        (topology : List CoreInfo)
        → Keeps (measure f measurer sorting rounds iterations callback topology)
    unfolding measure
    measure-Sums topology =
        measure_rounds-Keeps measurer measured iterations topology callback _ (rounds_of rounds) 0 _
          (replicate-IsLatency _)

    -- A successful `Update` puts in one entry for each core of the topology, in the topology's
    -- order, each with all the other cores of the topology, and no others, as its neighbors, sorted
    -- from the lowest latency to the highest, and forgets the selections made before. The measured values are latencies, and there is at least one round.
    pub update-IsRefreshed :
        (topology : List CoreInfo) (c : CpuInfo F)
        → (update f measurer sorting rounds iterations callback (ok topology) c).0 ≡ ok tt
        → IsRefreshed topology
            (update f measurer sorting rounds iterations callback (ok topology) c).1
    unfolding update
    update-IsRefreshed topology c h =
        elim (Result-cases (measure_all f measurer sorting rounds iterations callback topology)) [
          | inl (results, e) ↦ rw (e, update) (refreshed results e)
          | inr (failure, e) ↦ absurd (cc (rw (e, update) at h))
        ]
      where
        refreshed :
            (results : List (CoreRanking F))
            → measure_all f measurer sorting rounds iterations callback topology ≡ ok results
            → IsRefreshed topology (install results c)
        refreshed results e =
            let (st, m, q) =
              measure_all-rank_from f measurer sorting rounds iterations callback topology e in
            let sums : Sums st = rw m at (measure-Sums topology) in
            unfold install in
            record {
              cores = rw q (
                  cpus-rank_from f sorting rounds (length topology) st.lat_sums topology 0
                    topology);
              complete =
                  rw q (rank_from_complete f sorting rounds (length topology) st.lat_sums topology);
              sorted = rw q (
                  rank_from-All f sorting rounds (length topology) st.lat_sums _ topology
                    (λ i src _. sorting.sort-IsSorted _ (by_latency f) neighbor_order _ (
                      neighbors_from-IsLatency sorting rounds (length topology) st.lat_sums i 0
                        topology some_rounds sums))
                    0 topology refl);
              forgotten = refl;
            }
