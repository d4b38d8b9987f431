-- ===== src/CpuInfo/Update.antt =====
-- `Update` and `CalculateRanking` of pkg/cpuinfo/cpuinfo.go. The detector's and the measurer's
-- answers are parameters: a measurement may differ from call to call, so it is a function of the
-- number of measurements made before it.
pub mod Ranking
pub mod Sorted
use proxmox_cpu_affinity.Base.{
  ℕ, zero, suc, ◌+◌, ◌*◌, ℤ, pos, rounds_of, Bool, ◌==◌, if◌then◌else◌, List, [], ◌∷◌, ◌++◌, length,
  replicate, Result, ok, err, ◌>>=◌, SliceSort,
}
use proxmox_cpu_affinity.CpuInfo.Floats.{Float64}
use proxmox_cpu_affinity.CpuInfo.Types.{
  CoreInfo, Neighbor, CoreRanking, CpuInfo, CpuInfoError, detect_failed, measure_failed,
}
use proxmox_cpu_affinity.CpuInfo.Selection.{install, get_core_ranking}

-- What the loops change: the matrix, and what the callback was told. `calls` counts the
-- measurements.
pub record Measuring (F : Type 0) : Type 0 where
  pub lat_sums : List F
  pub calls : ℕ
  pub progress : List (ℕ × ℕ)

-- What can end `CalculateRanking`. After a timeout `Update` still runs on in the background.
pub data Race : Type 0 where
  finished timed_out : Race

pub data RankingError : Type 0 where
  calculation_failed ranking_missing : CpuInfoError → RankingError
  calculation_timeout : RankingError

-- The ranking that `CalculateRanking` logs, once it is there.
check_ranking : {F : Type 0} → CpuInfo F → Result RankingError (Unit {0}) × CpuInfo F
check_ranking c = elim (get_core_ranking c) [
  | err e ↦ (err (ranking_missing e), c)
  | ok rankings ↦ (ok tt, c)
]

module _ (f : Float64) where
  open f use {F, of_int, add, div, less}

  -- `latSums[k] += lat`.
  add_at : List F → ℕ → F → List F
  add_at [] k lat = []
  add_at (s ∷ sums) zero lat = add s lat ∷ sums
  add_at (s ∷ sums) (suc k) lat = s ∷ add_at sums k lat

  abbrev pub by_latency : Neighbor F → Neighbor F → Bool
  by_latency a b = less a.latency_ns b.latency_ns

  module _ (measurer : ℕ → ℤ → ℤ → ℤ → Result ℕ F) (iterations : ℤ) (topology : List CoreInfo) where
    record_latency : ℕ → ℕ → Measuring F → F → Measuring F
    unfolding add_at
    record_latency i j st lat = record st {
      lat_sums = add_at st.lat_sums (i * length topology + j) lat;
      calls = suc st.calls;
    }

    measure_link : ℕ → CoreInfo → ℕ → CoreInfo → Measuring F → Result CpuInfoError (Measuring F)
    unfolding record_latency
    measure_link i src j dst st =
        if i == j then ok st else elim (measurer st.calls src.cpu dst.cpu iterations) [
          | ok lat ↦ ok (record_latency i j st lat)
          | err e ↦ err (measure_failed src.cpu dst.cpu e)
        ]

    -- The loop over `dst`, from index `j` on.
    measure_row : ℕ → CoreInfo → ℕ → List CoreInfo → Measuring F → Result CpuInfoError (Measuring F)
    unfolding measure_link
    measure_row i src j [] st = ok st
    measure_row i src j (dst ∷ rest) st = do
      st' ← measure_link i src j dst st
      measure_row i src (suc j) rest st'

    -- The loop over `src`, from index `i` on.
    measure_rows : ℕ → List CoreInfo → Measuring F → Result CpuInfoError (Measuring F)
    unfolding measure_row
    measure_rows i [] st = ok st
    measure_rows i (src ∷ rest) st = do
      st' ← measure_row i src 0 topology st
      measure_rows (suc i) rest st'

    report : Bool → ℕ → ℕ → Measuring F → Measuring F
    report callback round total st =
        if callback then record st { progress = st.progress ++ (round, total) ∷ [] } else st

    -- The loop over the rounds: `left` rounds, from round `r` on.
    measure_rounds : Bool → ℕ → ℕ → ℕ → Measuring F → Result CpuInfoError (Measuring F)
    unfolding measure_rows report
    measure_rounds callback total zero r st = ok st
    measure_rounds callback total (suc left) r st = do
      st' ← measure_rows 0 topology (report callback (r + 1) total st)
      measure_rounds callback total left (r + 1) st'

  -- `latSums[k]`; the value past the end is never read.
  sum_at : List F → ℕ → F
  sum_at [] k = of_int (pos 0)
  sum_at (s ∷ ss) zero = s
  sum_at (s ∷ ss) (suc k) = sum_at ss k

  module _ (sorting : SliceSort (Neighbor F)) (rounds : ℤ) (width : ℕ) (sums : List F) where
    neighbor : ℕ → ℕ → CoreInfo → Neighbor F
    unfolding sum_at
    neighbor i j dst = record {
      cpu = dst.cpu;
      socket = dst.socket;
      core = dst.core;
      latency_ns = div (sum_at sums (i * width + j)) (of_int rounds);
    }

    -- The neighbors of core `i`, from index `j` on.
    pub neighbors_from : ℕ → ℕ → List CoreInfo → List (Neighbor F)
    unfolding neighbor
    neighbors_from i j [] = []
    neighbors_from i j (dst ∷ rest) =
        let others = neighbors_from i (suc j) rest in
        if i == j then others else neighbor i j dst ∷ others

    pub rank_from : List CoreInfo → ℕ → List CoreInfo → List (CoreRanking F)
    unfolding neighbors_from
    rank_from topology i [] = []
    rank_from topology i (src ∷ rest) =
        record { cpu = src.cpu; ranking = sorting.sort by_latency (neighbors_from i 0 topology) }
        ∷ rank_from topology (suc i) rest

  module _ (measurer : ℕ → ℤ → ℤ → ℤ → Result ℕ F) (sorting : SliceSort (Neighbor F))
      (rounds iterations : ℤ) (callback : Bool) where
    pub measure : List CoreInfo → Result CpuInfoError (Measuring F)
    unfolding measure_rounds
    measure topology =
        let n = length topology in
        measure_rounds measurer iterations topology callback (rounds_of rounds) (rounds_of rounds) 0
          (record { lat_sums = replicate (n * n) (of_int (pos 0)); calls = 0; progress = [] })

    -- The measuring and ranking of `Update`, which run without the lock.
    unfoldable pub measure_all : List CoreInfo → Result CpuInfoError (List (CoreRanking F))
    unfolding measure rank_from
    measure_all topology = do
      st ← measure topology
      ok (rank_from sorting rounds (length topology) st.lat_sums topology 0 topology)

    unfoldable pub update :
        Result ℕ (List CoreInfo) → CpuInfo F → Result CpuInfoError (Unit {0}) × CpuInfo F
    unfolding measure_all
    update detector c = elim detector [
      | err e ↦ (err (detect_failed e), c)
      | ok topology ↦ elim (measure_all topology) [
        | err e ↦ (err e, c)
        | ok results ↦ (ok tt, install results c)
      ]
    ]

    unfoldable pub calculate_ranking :
        Race → Result ℕ (List CoreInfo) → CpuInfo F → Result RankingError (Unit {0}) × CpuInfo F
    unfolding update check_ranking
    calculate_ranking timed_out detector c = (err calculation_timeout, c)
    calculate_ranking finished detector c =
        let (r, c') = update detector c in
        elim r [ err e ↦ (err (calculation_failed e), c') | ok _ ↦ check_ranking c' ]
