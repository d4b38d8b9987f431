-- ===== src/CpuInfo/Link/Progress.antt =====
-- How many steps a thread can still make, and that the two are never both stuck.
use proxmox_cpu_affinity.Base.{
  ℕ, zero, suc, ◌+◌, ◌*◌, ◌<◌, ℤ, Option, none, some, ◌≡◌, ◌≢◌, refl, arith, inl, inr, ◌⊎◌,
  Option-cases, ◌==◌, Bool-cases,
}
use proxmox_cpu_affinity.CpuInfo.Link.{
  Shared, Phase, locking, refused, locked, waiting, passed, looping, storing, ended, Move, locks,
  fails, gives_up, arrives, passes, backs_out, enters, sees, stores, leaves, Link, IsOver,
}
use proxmox_cpu_affinity.CpuInfo.Link.Invariant.{LinkOk}

eq_or_not : (a b : ℕ) → (a ≡ b) ⊎ (a ≢ b)
eq_or_not a b = elim (Bool-cases (a == b)) [
  | inl h ↦ inl (ground arith)
  | inr h ↦ inr (λ q. absurd (ground arith))
]

module _ {E : Type 0} where
  -- The steps that a thread can still make.
  unfoldable pub cost : ℕ → Phase E → ℕ
  cost iter locking = 2 * iter + 5
  cost iter (refused e) = 1
  cost iter locked = 2 * iter + 4
  cost iter waiting = 2 * iter + 3
  cost iter passed = 2 * iter + 2
  cost iter (looping k) = 2 * k + 1
  cost iter (storing k) = 2 * k + 2
  cost iter ended = 0

  pub Move-cost :
      {answer : Option E} {w iter : ℕ} {m n : Shared E} {p r : Phase E}
      → Move answer w iter m p n r
      → cost iter r < cost iter p
  unfolding cost
  Move-cost (locks a) = omega arith
  Move-cost (fails e a) = omega arith
  Move-cost (gives_up e) = omega arith
  Move-cost arrives = omega arith
  Move-cost (passes z) = omega arith
  Move-cost (backs_out h) = omega arith
  Move-cost (enters h) = omega arith
  Move-cost (sees k h) = omega arith
  Move-cost (stores k) = omega arith
  Move-cost leaves = omega arith

  -- Where a thread cannot move: it has ended, or waits for the barrier or for the signal.
  pub data Stuck (w : ℕ) (m : Shared E) : Phase E → Type 0 where
    at_end : Stuck w m ended
    at_barrier : m.barrier ≢ 0 → Stuck w m waiting
    at_signal : (k : ℕ) → m.signal ≢ w → Stuck w m (looping (suc k))

  abbrev pub CanMove : Option E → ℕ → ℕ → Shared E → Phase E → Type 0
  CanMove answer w iter m p = (n : Shared E) × (r : Phase E) × Move answer w iter m p n r

  pub moves_or_Stuck :
      (answer : Option E) (w iter : ℕ) (m : Shared E) (p : Phase E)
      → CanMove answer w iter m p ⊎ Stuck w m p
  moves_or_Stuck none w iter m locking = inl (_, _, locks refl)
  moves_or_Stuck (some e) w iter m locking = inl (_, _, fails e refl)
  moves_or_Stuck answer w iter m (refused e) = inl (_, _, gives_up e)
  moves_or_Stuck answer w iter m locked = inl (_, _, arrives)
  moves_or_Stuck answer w iter m waiting = elim (eq_or_not m.barrier 0) [
    | inl z ↦ inl (_, _, passes z)
    | inr z ↦ inr (at_barrier z)
  ]
  moves_or_Stuck answer w iter m passed = elim (Option-cases m.first_err) [
    | inl z ↦ inl (_, _, enters z)
    | inr (e, q) ↦ inl (_, _, backs_out (λ z. cc))
  ]
  moves_or_Stuck answer w iter m (looping zero) = inl (_, _, leaves)
  moves_or_Stuck answer w iter m (looping (suc k)) = elim (eq_or_not m.signal w) [
    | inl z ↦ inl (_, _, sees k z)
    | inr z ↦ inr (at_signal k z)
  ]
  moves_or_Stuck answer w iter m (storing k) = inl (_, _, stores k)
  moves_or_Stuck answer w iter m ended = inr at_end

  -- Two threads are never stuck both before both have ended.
  pub Stuck-IsOver :
      {lock : ℤ → Option E} {cpu_a cpu_b iter : ℤ} (s : Link E)
      → LinkOk lock cpu_a cpu_b iter s
      → Stuck 0 s.shared s.ping
      → Stuck 1 s.shared s.pong
      → IsOver s
  Stuck-IsOver s v at_end at_end = (refl, refl)
  Stuck-IsOver s v at_end (at_barrier b) = absurd (omega (arith, v.joint.counted))
  Stuck-IsOver s v at_end (at_signal k c) =
      absurd (omega (arith, v.joint.even (v.pong_ok.calm refl)))
  Stuck-IsOver s v (at_barrier b) at_end = absurd (omega (arith, v.joint.counted))
  Stuck-IsOver s v (at_barrier b) (at_barrier c) = absurd (omega (arith, v.joint.counted))
  Stuck-IsOver s v (at_barrier b) (at_signal k c) = absurd (omega (arith, v.joint.counted))
  Stuck-IsOver s v (at_signal k b) at_end =
      absurd (omega (arith, v.joint.even (v.ping_ok.calm refl)))
  Stuck-IsOver s v (at_signal k b) (at_barrier c) = absurd (omega (arith, v.joint.counted))
  Stuck-IsOver s v (at_signal k b) (at_signal j c) = absurd (omega (arith, v.joint.signal_le))
