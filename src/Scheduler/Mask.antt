-- ===== src/Scheduler/Mask.antt =====
-- The mask of `sched_setaffinity`. On Linux it is golang.org/x/sys/unix.CPUSet, which this
-- repository only calls: a parameter, with the behaviour that its documentation states.
use proxmox_cpu_affinity.Base.{ℤ, Bool, true, false, ◌==ℤ◌, if◌then◌else◌, ◌≡◌}

pub record CpuMask : Type 1 where
  pub Mask : Type 0
  pub empty : Mask
  pub set : ℤ → Mask → Mask
  pub is_set : Mask → ℤ → Bool
  -- The CPU numbers that a mask has a bit for.
  pub fits : ℤ → Bool
  pub is_set-empty : (c : ℤ) → is_set empty c ≡ false
  pub is_set-set :
      (c d : ℤ) (m : Mask)
      → is_set (set c m) d ≡ (if c ==ℤ d then (if fits c then true else is_set m d) else is_set m d)
