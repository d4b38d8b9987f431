-- ===== src/Scheduler/CpuSet.antt =====
-- `CPUSet` of pkg/scheduler/affinity_other.go: 16 words of 64 bits, as a function of the index. It
-- fills the interface that the scheduler uses.
use proxmox_cpu_affinity.Base.{
  ℕ, zero, suc, ◌+◌, ◌*◌, ◌/◌, ◌%◌, ℤ, pos, negsuc, ◌==ℤ◌, ltb, ◌==◌, Bool, Bool-cases, true, false,
  if◌then◌else◌, ◌≡◌, refl, subst, ◌∙◌, inl, inr, arith,
}
use proxmox_cpu_affinity.Scheduler.Mask.{CpuMask}

-- `w & (1 << k) != 0`.
bit : ℕ → ℕ → Bool
bit w zero = w % 2 == 1
bit w (suc k) = bit (w / 2) k

-- `w | 1 << k`.
set_bit : ℕ → ℕ → ℕ
set_bit w zero = w / 2 * 2 + 1
set_bit w (suc k) = set_bit (w / 2) k * 2 + w % 2

bit-set_bit : (w k j : ℕ) → bit (set_bit w k) j ≡ (if k == j then true else bit w j)
unfolding bit set_bit
bit-set_bit w zero zero = ground arith
bit-set_bit w zero (suc j) =
    subst (λ t. bit t j ≡ bit (w / 2) j) {x = w / 2} (omega arith) refl ∙ ground arith
bit-set_bit w (suc k) zero = ground arith
bit-set_bit w (suc k) (suc j) =
    subst (λ t. bit t j ≡ (if suc k == suc j then true else bit (w / 2) j)) {x = set_bit (w / 2) k}
      (omega arith) (bit-set_bit (w / 2) k j ∙ ground arith)

bit_zero : (k : ℕ) → bit 0 k ≡ false
unfolding bit
bit_zero zero = refl
bit_zero (suc k) = bit_zero k

-- The words by their index.
abbrev pub CpuSet : Type 0
CpuSet = ℕ → ℕ

abbrev pub in_range : ℤ → Bool
in_range (pos n) = ltb n 1024
in_range (negsuc n) = false

set_number : ℕ → CpuSet → CpuSet
unfolding set_bit
set_number n s i = if n / 64 == i then set_bit (s i) (n % 64) else s i

pub set_cpu : ℤ → CpuSet → CpuSet
unfolding set_number
set_cpu (pos n) s = if in_range (pos n) then set_number n s else s
set_cpu (negsuc n) s = s

pub is_set_cpu : CpuSet → ℤ → Bool
unfolding bit
is_set_cpu s (pos n) = if in_range (pos n) then bit (s (n / 64)) (n % 64) else false
is_set_cpu s (negsuc n) = false

bit-set_number :
    (c d : ℕ) (s : CpuSet)
    → bit (set_number c s (d / 64)) (d % 64) ≡ (if c == d then true else bit (s (d / 64)) (d % 64))
unfolding set_number
bit-set_number c d s = elim (Bool-cases (c / 64 == d / 64)) [
  | inl q ↦ rw q (bit-set_bit (s (d / 64)) (c % 64) (d % 64) ∙ ground arith)
  | inr q ↦ rw q (ground arith)
]

-- After `Set(c)` the set has the CPUs that it had, and c if c is between 0 and 1023.
pub is_set_cpu-set_cpu :
    (c d : ℤ) (s : CpuSet)
    → is_set_cpu (set_cpu c s) d
      ≡ (if c ==ℤ d then (if in_range c then true else is_set_cpu s d) else is_set_cpu s d)
unfolding set_cpu is_set_cpu
is_set_cpu-set_cpu (pos c) (pos d) s = elim (Bool-cases (in_range (pos c))) [
  | inl q ↦ rw q (ground (arith, bit-set_number c d s))
  | inr q ↦ rw q (ground arith)
]
is_set_cpu-set_cpu (pos c) (negsuc d) s = refl
is_set_cpu-set_cpu (negsuc c) (pos d) s = refl
is_set_cpu-set_cpu (negsuc c) (negsuc d) s = ground arith

-- No CPU is in the zero value.
pub is_set_cpu_zero : (d : ℤ) → is_set_cpu (λ i. 0) d ≡ false
unfolding is_set_cpu
is_set_cpu_zero (pos d) = ground (arith, bit_zero (d % 64))
is_set_cpu_zero (negsuc d) = refl

abbrev pub cpu_set : CpuMask
cpu_set = record {
  Mask = CpuSet;
  empty = λ i. 0;
  set = set_cpu;
  is_set = is_set_cpu;
  fits = in_range;
  is_set-empty = is_set_cpu_zero;
  is_set-set = is_set_cpu-set_cpu;
}
