-- ===== src/CpuInfo/Link/Ending.antt =====
-- The measurement ends, whatever the order of the two threads' steps, and what it returns.
use proxmox_cpu_affinity.Base.{
  ℕ, ◌+◌, ◌*◌, ◌≤◌, ℤ, pos, rounds_of, mul_int, Option, none, some, ok, err, ◌≡◌, refl, arith, inl,
  inr, ◌⊎◌, true, Option-cases, Bool-cases, ◌==ℤ◌, ==ℤ_iff, if◌then◌else◌, false, sym, ◌≢◌, ◌∙◌, ap,
  eq_of_some, subst,
}
use proxmox_cpu_affinity.CpuInfo.Floats.{Float64}
use proxmox_cpu_affinity.Scheduler.Mask.{CpuMask}
use proxmox_cpu_affinity.CpuInfo.Link.{
  lock_to_cpu, Shared, Phase, locking, refused, locked, waiting, passed, looping, storing, ended,
  keep_first, Move, locks, fails, gives_up, arrives, passes, backs_out, enters, sees, stores,
  leaves, Link, LinkStep, ping_moves, pong_moves, LinkRun, begins, moves, IsOver, link_result,
}
use proxmox_cpu_affinity.CpuInfo.Link.Invariant.{LinkOk, LinkRun-LinkOk}
use proxmox_cpu_affinity.CpuInfo.Link.Phases.{
  arrived, in_loop, left, Told, in_loop_past, arrived_le,
}
use proxmox_cpu_affinity.CpuInfo.Link.Progress.{cost, Move-cost, moves_or_Stuck, Stuck-IsOver}

module _ {E : Type 0} where
  -- The error that was kept is one of the two answers.
  abbrev Named : Option E → Option E → Shared E → Type 0
  Named a b m = (e : E) → m.first_err ≡ some e → (a ≡ some e) ⊎ (b ≡ some e)

  keep_first-some : {d e : E} (o : Option E) → keep_first o d ≡ some e → (o ≡ some e) ⊎ (d ≡ e)
  keep_first-some none h = inr (eq_of_some h)
  keep_first-some (some c) h = inl h

  Move-Named :
      {answer a b : Option E} {w iter : ℕ} {m n : Shared E} {p r : Phase E}
      → ((e : E) → answer ≡ some e → (a ≡ some e) ⊎ (b ≡ some e))
      → Move answer w iter m p n r
      → Named a b m
      → Named a b n
  Move-Named own (locks a) h = h
  Move-Named {m} own (fails d a) h =
      λ e q. elim (keep_first-some m.first_err q) [ inl g ↦ h e g | inr g ↦ own e (a ∙ ap some g) ]
  Move-Named own (gives_up e) h = h
  Move-Named own arrives h = h
  Move-Named own (passes z) h = h
  Move-Named own (backs_out z) h = h
  Move-Named own (enters z) h = h
  Move-Named own (sees k z) h = h
  Move-Named own (stores k) h = h
  Move-Named own leaves h = h

  Told-ended :
      {answer : Option E} (first : Option E)
      → first ≡ none
      → Told answer first ended
      → answer ≡ none
  Told-ended first z (inl h) = h
  Told-ended first z (inr h) = absurd (h z)

  Told-arrived :
      (answer first : Option E) (p : Phase E)
      → first ≡ none
      → arrived p ≡ 1
      → Told answer first p
      → answer ≡ none
  Told-arrived answer first locking z a h = absurd (omega arith)
  Told-arrived answer first (refused e) z a h = absurd (omega arith)
  Told-arrived answer first locked z a h = absurd (omega arith)
  Told-arrived answer first waiting z a h = h
  Told-arrived answer first passed z a h = h
  Told-arrived answer first (looping k) z a h = h
  Told-arrived answer first (storing k) z a h = h
  Told-arrived answer first ended z a h = Told-ended first z h

  module _ {lock : ℤ → Option E} {cpu_a cpu_b iter : ℤ} where
    LinkRun-Named :
        {n : ℕ} {s : Link E}
        → LinkRun lock cpu_a cpu_b iter n s
        → Named (lock cpu_a) (lock cpu_b) s.shared
    LinkRun-Named begins = λ e h. cc
    LinkRun-Named (moves run (ping_moves mv)) = Move-Named (λ e h. inl h) mv (LinkRun-Named run)
    LinkRun-Named (moves run (pong_moves mv)) = Move-Named (λ e h. inr h) mv (LinkRun-Named run)

    LinkRun-cost :
        {n : ℕ} {s : Link E}
        → LinkRun lock cpu_a cpu_b iter n s
        → n + (cost (rounds_of iter) s.ping + cost (rounds_of iter) s.pong)
          ≤ 4 * rounds_of iter + 10
    unfolding cost
    LinkRun-cost begins = omega arith
    LinkRun-cost (moves run (ping_moves mv)) = omega (arith, LinkRun-cost run, Move-cost mv)
    LinkRun-cost (moves run (pong_moves mv)) = omega (arith, LinkRun-cost run, Move-cost mv)

    -- No run of the two threads makes more than four steps for each round and ten more, and from each
    -- state that it reaches, either both threads have ended or one of them can make a step: the
    -- measurement ends, and they never wait for each other, whichever of them could not be pinned.
    pub LinkRun-ends :
        {n : ℕ} {s : Link E}
        → LinkRun lock cpu_a cpu_b iter n s
        → (n ≤ 4 * rounds_of iter + 10)
          × (IsOver s ⊎ ((t : Link E) × LinkStep lock cpu_a cpu_b iter s t))
    LinkRun-ends {s} run = (omega (arith, LinkRun-cost run), next)
      where
        next : IsOver s ⊎ ((t : Link E) × LinkStep lock cpu_a cpu_b iter s t)
        next = elim (moves_or_Stuck (lock cpu_a) 0 (rounds_of iter) s.shared s.ping) [
          | inl (m, p, mv) ↦ inr (_, ping_moves mv)
          | inr x ↦ elim (moves_or_Stuck (lock cpu_b) 1 (rounds_of iter) s.shared s.pong) [
            | inl (m, p, mv) ↦ inr (_, pong_moves mv)
            | inr y ↦ inl (Stuck-IsOver s (LinkRun-LinkOk run) x y)
          ]
        ]

    -- When both threads have ended, the result is the duration divided by twice the rounds if both
    -- were pinned, and the signal is back at 0; it is the error of one that was not pinned otherwise.
    pub LinkRun-result :
        {n : ℕ} {s : Link E} (f : Float64) (duration : ℤ)
        → LinkRun lock cpu_a cpu_b iter n s
        → IsOver s
        → ((lock cpu_a ≡ none)
            × (lock cpu_b ≡ none)
            × (s.shared.signal ≡ 0)
            × (link_result f duration iter s
                ≡ ok (f.div (f.of_int duration) (f.of_int (mul_int iter (pos 2))))))
          ⊎ ((e : E) × ((lock cpu_a ≡ some e) ⊎ (lock cpu_b ≡ some e))
              × (link_result f duration iter s ≡ err e))
    unfolding link_result
    LinkRun-result {s} f duration run (x, y) =
        let v = LinkRun-LinkOk run in
        elim (Option-cases s.shared.first_err) [
          | inl z ↦
              let even = v.joint.even z in
              inl (
                Told-ended s.shared.first_err z
                    (subst (Told (lock cpu_a) s.shared.first_err) x v.ping_ok.told),
                Told-ended s.shared.first_err z
                    (subst (Told (lock cpu_b) s.shared.first_err) y v.pong_ok.told),
                omega (arith, even, ap (left (rounds_of iter)) x, ap (left (rounds_of iter)) y),
                rw (z, link_result) refl,
              )
          | inr (e, q) ↦ inr (e, LinkRun-Named run e q, rw (q, link_result) refl)
        ]

    -- While a thread is in its loop, both threads are pinned to their CPUs, and the rounds that the
    -- second has to go are those of the first and the signal.
    pub LinkRun-in_loop :
        {n : ℕ} {s : Link E}
        → LinkRun lock cpu_a cpu_b iter n s
        → (in_loop s.ping ≡ true) ⊎ (in_loop s.pong ≡ true)
        → (lock cpu_a ≡ none)
          × (lock cpu_b ≡ none)
          × (left (rounds_of iter) s.pong ≡ left (rounds_of iter) s.ping + s.shared.signal)
    LinkRun-in_loop {s} run h = (
      Told-arrived _ _ s.ping fine (omega (arith, all_there, arrived_le s.ping, arrived_le s.pong))
          v.ping_ok.told,
      Told-arrived _ _ s.pong fine (omega (arith, all_there, arrived_le s.ping, arrived_le s.pong))
          v.pong_ok.told,
      v.joint.even fine,
    )
      where
        v : LinkOk lock cpu_a cpu_b iter s
        v = LinkRun-LinkOk run

        fine : s.shared.first_err ≡ none
        fine = elim h [ inl i ↦ v.ping_ok.calm i | inr i ↦ v.pong_ok.calm i ]

        open_barrier : s.shared.barrier ≡ 0
        open_barrier = elim h [
          | inl i ↦ v.ping_ok.past (in_loop_past s.ping i) fine
          | inr i ↦ v.pong_ok.past (in_loop_past s.pong i) fine
        ]

        all_there : arrived s.ping + arrived s.pong ≡ 2
        all_there = omega (arith, v.joint.counted, open_barrier)

-- A thread that `lockToCPU` pinned has a mask that allows no other CPU.
lock_to_cpu-none :
    {E : Type 0} (m : CpuMask) (sched_setaffinity : m.Mask → Option E) (cpu : ℤ)
    → lock_to_cpu m sched_setaffinity cpu ≡ none
    → (mask : m.Mask) × (sched_setaffinity mask ≡ none)
      × ((d : ℤ) → m.is_set mask d ≡ true → cpu ≡ d)
unfolding lock_to_cpu
lock_to_cpu-none m sched_setaffinity cpu h = (
  m.set cpu m.empty,
  elim (Option-cases (sched_setaffinity (m.set cpu m.empty))) [
    | inl q ↦ q
    | inr (e, q) ↦ absurd (none-ne-some {a = (cpu, e)} (sym h ∙ rw (q, lock_to_cpu) refl))
  ],
  λ d q. elim (Bool-cases (cpu ==ℤ d)) [
    | inl same ↦ (==ℤ_iff cpu d).0 same
    | inr other ↦ absurd (
        false-ne-true
          (sym (rw (m.is_set-set cpu d m.empty, other, if◌then◌else◌) (m.is_set-empty d)) ∙ q))
  ],
)
  where
    none-ne-some : {A : Type 0} {a : A} → ◌≢◌ {A = Option A} none (some a)
    none-ne-some h = cc

    false-ne-true : false ≢ true
    false-ne-true h = cc
