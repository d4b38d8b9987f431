-- ===== src/CpuInfo/Link.antt =====
-- `measureSingleLink` of pkg/cpuinfo/cpuinfo.go, with `lockToCPU` of cpuinfo_linux.go: two threads,
-- each on a CPU of its own, that pass a signal to and fro. Each access to what they share is a step
-- of one of them. A round of a waiting loop that finds the signal unchanged is no step.
pub mod Phases
pub mod Invariant
pub mod Progress
pub mod Ending
use proxmox_cpu_affinity.Base.{
  ℕ, zero, suc, ◌+◌, ◌-◌, ℤ, pos, rounds_of, mul_int, Option, none, some, Result, ok, err, ◌≡◌, ◌≢◌,
  ◌⊎◌, ◌∷◌, [], List,
}
use proxmox_cpu_affinity.CpuInfo.Floats.{Float64}
use proxmox_cpu_affinity.Scheduler.Mask.{CpuMask}

-- `lockToCPU`, given what the system call answers for a mask.
unfoldable pub lock_to_cpu {ℓ} :
    {E : Type ℓ} (m : CpuMask) → (m.Mask → Option E) → ℤ → Option (ℤ × E)
lock_to_cpu m sched_setaffinity cpu = elim (sched_setaffinity (m.set cpu m.empty)) [
  | none ↦ none
  | some e ↦ some (cpu, e)
]

-- What the threads share. `barrier` is the number of threads that the barrier waits for.
pub record Shared (E : Type 0) : Type 0 where
  pub barrier : ℕ
  pub signal : ℕ
  pub first_err : Option E

-- Where a thread stands: before `lockToCPU`, after it, at the barrier, past it, in the loop with
-- rounds to go, before the store that ends a round, or after `wg.Done`.
pub data Phase (E : Type 0) : Type 0 where
  locking : Phase E
  refused : E → Phase E
  locked waiting passed : Phase E
  looping storing : ℕ → Phase E
  ended : Phase E

-- `if firstErr == nil { firstErr = err }`.
abbrev pub keep_first : {E : Type 0} → Option E → E → Option E
keep_first none e = some e
keep_first (some first) e = some first

module _ {E : Type 0} where
  -- One step of the thread that `lockToCPU` answers with `answer`, and that waits in its loop for
  -- `wanted`, with `iter` rounds.
  pub data Move (answer : Option E) (wanted iter : ℕ) (m : Shared E)
      : Phase E → Shared E → Phase E → Type 0 where
    locks : answer ≡ none → Move answer wanted iter m locking m locked
    fails :
        (e : E)
        → answer ≡ some e
        → Move answer wanted iter m locking
            (record m { first_err = keep_first m.first_err e })
            (refused e)
    gives_up :
        (e : E) → Move answer wanted iter m (refused e) (record m { barrier = m.barrier - 1 }) ended
    arrives : Move answer wanted iter m locked (record m { barrier = m.barrier - 1 }) waiting
    passes : m.barrier ≡ 0 → Move answer wanted iter m waiting m passed
    backs_out : m.first_err ≢ none → Move answer wanted iter m passed m ended
    enters : m.first_err ≡ none → Move answer wanted iter m passed m (looping iter)
    sees : (k : ℕ) → m.signal ≡ wanted → Move answer wanted iter m (looping (suc k)) m (storing k)
    stores :
        (k : ℕ)
        → Move answer wanted iter m (storing k) (record m { signal = 1 - wanted }) (looping k)
    leaves : Move answer wanted iter m (looping 0) m ended

-- The two threads: `ping` waits for 0 and stores 1, `pong` waits for 1 and stores 0.
pub record Link (E : Type 0) : Type 0 where
  pub shared : Shared E
  pub ping : Phase E
  pub pong : Phase E

abbrev pub start_link : {E : Type 0} → Link E
start_link = record {
  shared = record { barrier = 2; signal = 0; first_err = none };
  ping = locking;
  pong = locking;
}

-- A step of the measurement between `cpu_a` and `cpu_b`.
pub data LinkStep {E : Type 0} (lock : ℤ → Option E) (cpu_a cpu_b iter : ℤ) (s : Link E)
    : Link E → Type 0 where
  ping_moves :
      {m : Shared E} {p : Phase E}
      → Move (lock cpu_a) 0 (rounds_of iter) s.shared s.ping m p
      → LinkStep lock cpu_a cpu_b iter s (record { shared = m; ping = p; pong = s.pong })
  pong_moves :
      {m : Shared E} {p : Phase E}
      → Move (lock cpu_b) 1 (rounds_of iter) s.shared s.pong m p
      → LinkStep lock cpu_a cpu_b iter s (record { shared = m; ping = s.ping; pong = p })

-- The states after a number of steps from the start.
pub data LinkRun {E : Type 0} (lock : ℤ → Option E) (cpu_a cpu_b iter : ℤ)
    : ℕ → Link E → Type 0 where
  begins : LinkRun lock cpu_a cpu_b iter 0 start_link
  moves :
      {n : ℕ} {s t : Link E}
      → LinkRun lock cpu_a cpu_b iter n s
      → LinkStep lock cpu_a cpu_b iter s t
      → LinkRun lock cpu_a cpu_b iter (suc n) t

-- `wg.Wait()` returns.
abbrev pub IsOver : {E : Type 0} → Link E → Type 0
IsOver s = (s.ping ≡ ended) × (s.pong ≡ ended)

-- What is returned after `wg.Wait()`, where the wait took `duration` nanoseconds.
unfoldable pub link_result : {E : Type 0} (f : Float64) → ℤ → ℤ → Link E → Result E f.F
link_result f duration iter s = elim s.shared.first_err [
  | some e ↦ err e
  | none ↦ ok (f.div (f.of_int duration) (f.of_int (mul_int iter (pos 2))))
]
