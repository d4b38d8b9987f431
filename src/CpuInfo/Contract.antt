-- ===== src/CpuInfo/Contract.antt =====
-- What the users of pkg/cpuinfo rely on, without rankings, latencies and the rotation: the CPUs of
-- the machine, and which VM holds which of them. The package refines it.
use mathlib.Core.List.{Mem, Nodup}
use proxmox_cpu_affinity.Base.{
  ◌≤◌, ◌<◌, ℤ, pos, rounds_of, ==ℤ_iff, List, [], ◌∷◌, length, length-map, Option, some, none,
  Result, ok, err, lookup, lookup-insert, SliceSort, ◌≡◌, ◌≢◌, ap, ◌∙◌, arith,
}
use proxmox_cpu_affinity.CpuInfo.Floats.{Float64}
use proxmox_cpu_affinity.CpuInfo.Types.{Neighbor, CoreRanking, CpuInfo, CpuInfoError}
use proxmox_cpu_affinity.CpuInfo.Selection.{select_cpus, install}
use proxmox_cpu_affinity.CpuInfo.Selection.Outcome.{
  Outcome, no_ranking, kept, too_few, too_many, placed, select_cpus-Outcome,
}
use proxmox_cpu_affinity.CpuInfo.Selection.Invariant.{
  cpus, IsConsistent, IsPlacement, select_cpus-IsPlacement,
}
use proxmox_cpu_affinity.CpuInfo.Update.Ranking.{measure_all-IsRanked}
use proxmox_cpu_affinity.CpuInfo.History.{
  Step, selects, refreshes, Reachable, start, next, Reachable-IsConsistent,
}

-- The abstract state.
pub record Assignment : Type 0 where
  pub machine : List ℤ
  pub held : ℤ → Option (List ℤ)

-- A number of CPUs that the machine can give.
pub record CanServe (a : Assignment) (requested : ℤ) : Type 0 where
  pub some_requested : 0 < rounds_of requested
  pub enough : rounds_of requested ≤ length a.machine

-- A request: it is refused if it cannot be met; a VM that holds as many CPUs keeps them; and
-- otherwise it is given different CPUs of the machine, as many as it asks for, and holds them from
-- then on, while the other VMs hold what they held.
pub data Serves (vmid requested : ℤ) (a : Assignment)
    : Result CpuInfoError (List ℤ) → Assignment → Type 0 where
  refuses : (e : CpuInfoError) → ¬ CanServe a requested → Serves vmid requested a (err e) a
  repeats :
      (cores : List ℤ)
      → a.held vmid ≡ some cores
      → pos (length cores) ≡ requested
      → Serves vmid requested a (ok cores) a
  gives :
      (cores : List ℤ) (held : ℤ → Option (List ℤ))
      → ((before : List ℤ) → a.held vmid ≡ some before → pos (length before) ≢ requested)
      → pos (length cores) ≡ requested
      → Nodup cores
      → ((x : ℤ) → Mem x cores → Mem x a.machine)
      → held vmid ≡ some cores
      → ((other : ℤ) → other ≢ vmid → held other ≡ a.held other)
      → Serves vmid requested a (ok cores) (record { machine = a.machine; held = held })

-- The abstract state of a concrete one.
pub view : {F : Type 0} → CpuInfo F → Assignment
view c = record { machine = cpus c.cache; held = λ vmid. lookup vmid c.selections }

module _ {F : Type 0} where
  machine_size : (c : CpuInfo F) → length (cpus c.cache) ≡ length c.cache
  machine_size c = length-map (λ (r : CoreRanking F). r.cpu) c.cache

  Outcome-Serves :
      (vmid requested : ℤ) (c : CpuInfo F) {r : Result CpuInfoError (List ℤ) × CpuInfo F}
      → ((cores : List ℤ) → r.0 ≡ ok cores → IsPlacement c.cache requested cores)
      → Outcome vmid requested c r
      → Serves vmid requested (view c) r.0 (view r.1)
  unfolding view
  Outcome-Serves vmid requested c p (no_ranking h e) = rw e (
      refuses _
        λ s. absurd (omega (arith, s.some_requested, s.enough, ap length h, machine_size c)))
  Outcome-Serves vmid requested c p (kept cores z f s e) = rw e (repeats cores f s)
  Outcome-Serves vmid requested c p (too_few v h e) =
      rw e (refuses _ λ s. absurd (omega (arith, s.some_requested, h)))
  Outcome-Serves vmid requested c p (too_many n v h f e) =
      rw e (refuses _ λ s. absurd (omega (arith, s.enough, f, ap rounds_of h, machine_size c)))
  Outcome-Serves vmid requested c p (placed n primary v h k f g e) =
      let good = p _ (ap (λ r. r.0) e) in
      rw e (
        gives _ _ v.unheld good.size good.distinct good.known
          (lookup-insert vmid vmid _ c.selections ∙ ground (arith, ==ℤ_iff vmid vmid))
          λ other ne. lookup-insert vmid other _ c.selections ∙ ground (arith, ==ℤ_iff vmid other))

  select_cpus-Serves :
      (vmid requested : ℤ) (c : CpuInfo F)
      → IsConsistent c
      → Serves vmid requested
          (view c)
          (select_cpus vmid requested c).0
          (view (select_cpus vmid requested c).1)
  select_cpus-Serves vmid requested c v =
      Outcome-Serves vmid requested c
        (λ cores e. select_cpus-IsPlacement vmid requested c cores v e)
        (select_cpus-Outcome vmid requested c)

-- What users see: a request with its result, or a change of the machine.
pub data Event : Type 0 where
  requested_cpus : ℤ → ℤ → Result CpuInfoError (List ℤ) → Event
  replaced : List ℤ → Event

-- What an event makes of the abstract state; after a change of the machine no VM holds anything.
pub data Happens (a : Assignment) : Event → Assignment → Type 0 where
  serves :
      (vmid requested : ℤ) (r : Result CpuInfoError (List ℤ)) {b : Assignment}
      → Serves vmid requested a r b
      → Happens a (requested_cpus vmid requested r) b
  replaces :
      (machine : List ℤ)
      → Nodup machine
      → Happens a (replaced machine) (record { machine = machine; held = λ vmid. none })

abbrev pub nothing_held : Assignment
nothing_held = record { machine = []; held = λ vmid. none }

-- The events that may be seen, the newest first, and the state after them.
pub data Allowed : List Event → Assignment → Type 0 where
  none_seen : Allowed [] nothing_held
  after :
      {events : List Event} {e : Event} {a b : Assignment}
      → Allowed events a
      → Happens a e b
      → Allowed (e ∷ events) b

module _ (f : Float64) (sorting : SliceSort (Neighbor f.F)) where
  -- What is seen of a step: the request with what `SelectCPUs` returns, or the CPUs of the ranking
  -- that `Update` puts in.
  pub event_of : {c d : CpuInfo f.F} → Step f sorting c d → Event
  event_of {c} (selects vmid requested) =
      requested_cpus vmid requested (select_cpus vmid requested c).0
  event_of (refreshes measurer rounds iterations callback topology results d e) =
      replaced (cpus results)

  -- The events of a history, the newest first.
  pub events_of : {c : CpuInfo f.F} → Reachable f sorting c → List Event
  unfolding event_of
  events_of start = []
  events_of (next r s) = event_of s ∷ events_of r

  Step-Happens :
      {c d : CpuInfo f.F}
      → IsConsistent c
      → (s : Step f sorting c d) → Happens (view c) (event_of s) (view d)
  unfolding view install lookup event_of
  Step-Happens {c} v (selects vmid requested) =
      serves vmid requested _ (select_cpus-Serves vmid requested c v)
  Step-Happens {c} v (refreshes measurer rounds iterations callback topology results d e) =
      replaces (cpus results)
        (measure_all-IsRanked f measurer sorting rounds iterations callback topology d e).distinct

  -- What the users of the shared state see, in any history, is what the abstract state allows: each
  -- request gets its result, it is refused only if it cannot be met, a VM that holds as many CPUs
  -- gets them again, and another one as many different CPUs of the machine as it asks for, which it
  -- then holds; a change of the machine frees all CPUs.
  pub events_of-Allowed :
      {c : CpuInfo f.F} (r : Reachable f sorting c) → Allowed (events_of r) (view c)
  unfolding view lookup events_of
  events_of-Allowed start = none_seen
  events_of-Allowed (next r s) =
      after (events_of-Allowed r) (Step-Happens (Reachable-IsConsistent f sorting r) s)
