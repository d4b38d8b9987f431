-- ===== src/CpuInfo/Link/Phases.antt =====
-- Where a thread of the measurement stands, and what it knows there.
use proxmox_cpu_affinity.Base.{
  ℕ, suc, ◌≤◌, Option, none, some, ◌≡◌, ◌≢◌, refl, arith, inr, ◌⊎◌, Bool, true, false,
}
use proxmox_cpu_affinity.CpuInfo.Link.{
  Phase, locking, refused, locked, waiting, passed, looping, storing, ended, keep_first,
}

module _ {E : Type 0} where
  -- 1 once the thread has called `barrier.Done`.
  abbrev pub arrived : Phase E → ℕ
  arrived locking = 0
  arrived (refused e) = 0
  arrived locked = 0
  arrived _ = 1

  abbrev pub in_loop : Phase E → Bool
  in_loop (looping k) = true
  in_loop (storing k) = true
  in_loop _ = false

  -- Where a thread comes behind the barrier, as long as no thread fails.
  abbrev pub is_past : Phase E → Bool
  is_past passed = true
  is_past ended = true
  is_past p = in_loop p

  abbrev pub is_storing : Phase E → Bool
  is_storing (storing k) = true
  is_storing _ = false

  -- The rounds that a thread still has to make, where no thread fails.
  abbrev pub left : ℕ → Phase E → ℕ
  left iter (looping k) = k
  left iter (storing k) = suc k
  left iter ended = 0
  left iter _ = iter

  -- What a thread knows of the answer of `lockToCPU`, given the error that was kept.
  abbrev pub Told : Option E → Option E → Phase E → Type 0
  Told answer first locking = Unit
  Told answer first (refused e) = (answer ≡ some e) × (first ≢ none)
  Told answer first ended = (answer ≡ none) ⊎ (first ≢ none)
  Told answer first _ = answer ≡ none

  pub keep_first-ne : (o : Option E) (e : E) → keep_first o e ≢ none
  keep_first-ne none e h = cc
  keep_first-ne (some d) e h = cc

  pub in_loop_past : (p : Phase E) → in_loop p ≡ true → is_past p ≡ true
  in_loop_past locking h = h
  in_loop_past (refused e) h = h
  in_loop_past locked h = h
  in_loop_past waiting h = h
  in_loop_past passed h = refl
  in_loop_past (looping k) h = h
  in_loop_past (storing k) h = h
  in_loop_past ended h = refl

  pub Told-keep_first :
      (answer : Option E) (p : Phase E) (o : Option E) (e : E)
      → Told answer o p
      → Told answer (keep_first o e) p
  Told-keep_first answer locking o e h = h
  Told-keep_first answer (refused d) o e h = (h.0, keep_first-ne o e)
  Told-keep_first answer locked o e h = h
  Told-keep_first answer waiting o e h = h
  Told-keep_first answer passed o e h = h
  Told-keep_first answer (looping k) o e h = h
  Told-keep_first answer (storing k) o e h = h
  Told-keep_first answer ended o e h = inr (keep_first-ne o e)

  pub arrived_le : (p : Phase E) → arrived p ≤ 1
  arrived_le locking = omega arith
  arrived_le (refused e) = omega arith
  arrived_le locked = omega arith
  arrived_le waiting = omega arith
  arrived_le passed = omega arith
  arrived_le (looping k) = omega arith
  arrived_le (storing k) = omega arith
  arrived_le ended = omega arith
