-- ===== src/CpuInfo/Summary/Bounds.antt =====
-- The least and the greatest latency of a summary, and the sockets it counts.
use proxmox_cpu_affinity.Base.{
  ℕ, ◌+◌, false, Bool-cases, ◌==◌, List, [], ◌∷◌, length, All, SliceSort, nil_of_length, subst,
  insert, ◌≡◌, refl, inl, inr, arith, sym, StrictWeakOrder,
}
use proxmox_cpu_affinity.CpuInfo.Floats.{Float64}
use proxmox_cpu_affinity.CpuInfo.Types.{Neighbor, CoreRanking}
use proxmox_cpu_affinity.CpuInfo.Summary.{
  Tally, tally_neighbor, tally_neighbors, tally_rankings, start_tally, finish, summarize_rankings,
  start_min, start_max,
}

module _ (f : Float64) (Valid : f.F → Type 0) (order : StrictWeakOrder Valid f.less) where
  open f use {F, less}

  -- A latency lies between the bounds.
  abbrev pub Within : F → F → F → Type 0
  Within lo hi x = (less x lo ≡ false) × (less hi x ≡ false)

  abbrev pub AllWithin : F → F → List (Neighbor F) → Type 0
  AllWithin lo hi = All (λ n. Within lo hi n.latency_ns)

  -- The new bounds enclose the old ones.
  abbrev Extends : Tally F → Tally F → Type 0
  Extends t u = Valid u.min × Valid u.max × (less t.min u.min ≡ false) × (less u.max t.max ≡ false)

  irrefl : (a : F) → Valid a → less a a ≡ false
  irrefl a v = elim (Bool-cases (less a a)) [ inl e ↦ order.asymm a a v v e | inr e ↦ e ]

  Extends-refl : (t : Tally F) → Valid t.min → Valid t.max → Extends t t
  Extends-refl t a b = (a, b, irrefl t.min a, irrefl t.max b)

  Extends-trans :
      (t u v : Tally F) → Valid t.min → Valid t.max → Extends t u → Extends u v → Extends t v
  Extends-trans t u v a b (c, d, p, q) (g, h, r, s) =
      (g, h, order.le_trans v.min u.min t.min g c a r p, order.le_trans t.max u.max v.max b d h q s)

  Within-Extends :
      (t u : Tally F) (x : F)
      → Valid x
      → Valid t.min
      → Valid t.max
      → Extends t u
      → Within t.min t.max x
      → Within u.min u.max x
  Within-Extends t u x vx a b (c, d, p, q) (lo, hi) =
      (order.le_trans u.min t.min x c a vx p lo, order.le_trans x t.max u.max vx b d hi q)

  AllWithin-Extends :
      (t u : Tally F) (ns : List (Neighbor F))
      → All (λ n. Valid n.latency_ns) ns
      → Valid t.min
      → Valid t.max
      → Extends t u
      → AllWithin t.min t.max ns
      → AllWithin u.min u.max ns
  AllWithin-Extends t u [] vs a b e w = tt
  AllWithin-Extends t u (n ∷ ns) vs a b e w =
      (Within-Extends t u n.latency_ns vs.0 a b e w.0, AllWithin-Extends t u ns vs.1 a b e w.1)

  abbrev pub AllRankings : F → F → List (CoreRanking F) → Type 0
  AllRankings lo hi = All (λ r. AllWithin lo hi r.ranking)

  tally_neighbor-Extends :
      (t : Tally F) (n : Neighbor F)
      → Valid t.min
      → Valid t.max
      → Valid n.latency_ns
      → Extends t (tally_neighbor f t n)
        × Within (tally_neighbor f t n).min (tally_neighbor f t n).max n.latency_ns
  unfolding tally_neighbor
  tally_neighbor-Extends t n a b c = ground (
    arith,
    order.asymm n.latency_ns t.min c a,
    order.asymm t.max n.latency_ns b c,
    irrefl n.latency_ns c,
    irrefl t.min a,
    irrefl t.max b,
  )

  tally_neighbors-Extends :
      (t : Tally F) (ns : List (Neighbor F))
      → Valid t.min
      → Valid t.max
      → All (λ n. Valid n.latency_ns) ns
      → Extends t (tally_neighbors f t ns)
        × AllWithin (tally_neighbors f t ns).min (tally_neighbors f t ns).max ns
  unfolding tally_neighbors
  tally_neighbors-Extends t [] a b vs = (Extends-refl t a b, tt)
  tally_neighbors-Extends t (n ∷ ns) a b vs =
      let u = tally_neighbor f t n in
      let (e, w) = tally_neighbor-Extends t n a b vs.0 in
      let (e', ws) = tally_neighbors-Extends u ns e.0 e.1 vs.1 in
      (
        Extends-trans t u (tally_neighbors f u ns) a b e e',
        (Within-Extends u (tally_neighbors f u ns) n.latency_ns vs.0 e.0 e.1 e' w, ws),
      )

  tally_rankings-Extends :
      (t : Tally F) (rs : List (CoreRanking F))
      → Valid t.min
      → Valid t.max
      → All (λ r. All (λ n. Valid n.latency_ns) r.ranking) rs
      → Extends t (tally_rankings f t rs)
        × AllRankings (tally_rankings f t rs).min (tally_rankings f t rs).max rs
  unfolding tally_rankings
  tally_rankings-Extends t [] a b vs = (Extends-refl t a b, tt)
  tally_rankings-Extends t (r ∷ rs) a b vs =
      let t' = record t { cpus = insert r.cpu tt t.cpus } in
      let u = tally_neighbors f t' r.ranking in
      let (e, w) = tally_neighbors-Extends t' r.ranking a b vs.0 in
      let (e', ws) = tally_rankings-Extends u rs e.0 e.1 vs.1 in
      (
        Extends-trans t u (tally_rankings f u rs) a b e e',
        (AllWithin-Extends u (tally_rankings f u rs) r.ranking vs.0 e.0 e.1 e' w, ws),
      )

  latency_count : List (CoreRanking F) → ℕ
  latency_count [] = 0
  latency_count (r ∷ rs) = length r.ranking + latency_count rs

  tally_neighbors-count :
      (t : Tally F) (ns : List (Neighbor F)) → (tally_neighbors f t ns).count ≡ t.count + length ns
  unfolding tally_neighbors
  tally_neighbors-count t [] = omega arith
  tally_neighbors-count t (n ∷ ns) = omega (arith, tally_neighbors-count (tally_neighbor f t n) ns)

  tally_rankings-count :
      (t : Tally F) (rs : List (CoreRanking F))
      → (tally_rankings f t rs).count ≡ t.count + latency_count rs
  unfolding tally_rankings latency_count
  tally_rankings-count t [] = omega arith
  tally_rankings-count t (r ∷ rs) =
      let t' = record t { cpus = insert r.cpu tt t.cpus } in
      omega (
        arith,
        tally_neighbors-count t' r.ranking,
        tally_rankings-count (tally_neighbors f t' r.ranking) rs,
      )

  no_latencies :
      (lo hi : F) (rs : List (CoreRanking F)) → latency_count rs ≡ 0 → AllRankings lo hi rs
  unfolding latency_count
  no_latencies lo hi [] h = tt
  no_latencies lo hi (r ∷ rs) h = (
    subst (AllWithin lo hi) (sym (nil_of_length r.ranking (omega arith))) tt,
    no_latencies lo hi rs (omega arith),
  )

  finish-bounds :
      (sorting : SliceSort F) (t : Tally F)
      → (t.count == 0) ≡ false
      → ◌≡◌ {A = F × F}
          ((finish f sorting t).min_latency_ns, (finish f sorting t).max_latency_ns)
          (t.min, t.max)
  unfolding finish
  finish-bounds sorting t e = rw e

  -- Every latency of the rankings lies between the least and the greatest that the summary reports,
  -- if the latencies and the two start values of the loop are numbers.
  pub summarize_rankings-bounds :
      (sorting : SliceSort F) (rs : List (CoreRanking F))
      → Valid (start_min f)
      → Valid (start_max f)
      → All (λ r. All (λ n. Valid n.latency_ns) r.ranking) rs
      → AllRankings
          (summarize_rankings f sorting rs).min_latency_ns
          (summarize_rankings f sorting rs).max_latency_ns
          rs
  unfolding summarize_rankings
  summarize_rankings-bounds sorting [] a b vs = tt
  summarize_rankings-bounds sorting (r ∷ rs) a b vs =
      elim (Bool-cases ((tally_rankings f (start_tally f) (r ∷ rs)).count == 0)) [
        | inl e ↦
            (no_latencies _ _ (r ∷ rs)
              (ground (arith, tally_rankings-count (start_tally f) (r ∷ rs))))
        | inr e ↦
            let bounds = finish-bounds sorting (tally_rankings f (start_tally f) (r ∷ rs)) e in
            subst (λ (m : F × F). AllRankings m.0 m.1 (r ∷ rs)) (sym bounds)
              ((tally_rankings-Extends (start_tally f) (r ∷ rs) a b vs).1)
      ]

-- Sockets are counted from the neighbors alone: where no core has a neighbor, as on a machine with
-- one CPU, the summary reports no socket.
no_neighbors :
    (f : Float64) (t : Tally f.F) (rs : List (CoreRanking f.F))
    → All (λ r. r.ranking ≡ []) rs
    → (tally_rankings f t rs).sockets ≡ t.sockets
unfolding tally_rankings
no_neighbors f t [] h = refl
no_neighbors f t (r ∷ rs) h =
    rw (h.0) (no_neighbors f (record t { cpus = insert r.cpu tt t.cpus }) rs h.1)

-- A summary of rankings without neighbors, as on a machine with one CPU, reports no socket.
pub summarize_rankings-no_socket :
    (f : Float64) (sorting : SliceSort f.F) (rs : List (CoreRanking f.F))
    → All (λ r. r.ranking ≡ []) rs
    → (summarize_rankings f sorting rs).socket_count ≡ 0
unfolding summarize_rankings
summarize_rankings-no_socket f sorting [] h = refl
summarize_rankings-no_socket f sorting (r ∷ rs) h =
    ground (arith, no_neighbors f (start_tally f) (r ∷ rs) h)
