-- ===== src/Scheduler/Affinity/Masks.antt =====
-- The mask that is built, and the processes that get it.
use mathlib.Core.Bool.{Bool-set}
use mathlib.Core.Logic.{∥∥₁_elim}
use proxmox_cpu_affinity.Base.{
  ℤ, ==ℤ_iff, Bool, ◌||◌, ◌&&◌, if◌then◌else◌, List, [], ◌∷◌, map, some, none, lookup, Perm, All,
  ◌≡◌, refl, ap, ◌∙◌, arith,
}
use mathlib.Core.List.{Permᴰ}
use proxmox_cpu_affinity.Scheduler.Mask.{CpuMask}
use proxmox_cpu_affinity.Scheduler.Processes.{ProcFs, PidSet, collect_pids_to_update}
use proxmox_cpu_affinity.Scheduler.Processes.Targets.{elem, targets, lookup-collect_pids_to_update}
use proxmox_cpu_affinity.Scheduler.Affinity.{mask_from, mask_of, pin_all}

elem-Permᴰ : (x : ℤ) {xs ys : List ℤ} → Permᴰ xs ys → elem x xs ≡ elem x ys
unfolding elem
elem-Permᴰ x Permᴰ.nil = refl
elem-Permᴰ x (Permᴰ.cons e p) = ground (arith, e, elem-Permᴰ x p)
elem-Permᴰ x (Permᴰ.swap e f) = ground (arith, e, f)
elem-Permᴰ x (Permᴰ.trans p q) = elem-Permᴰ x p ∙ elem-Permᴰ x q

elem-perm : (x : ℤ) {xs ys : List ℤ} → Perm xs ys → elem x xs ≡ elem x ys
elem-perm x p = ∥∥₁_elim p (Bool-set _ _) (elem-Permᴰ x)

elem-keys :
    (x : ℤ) (set : PidSet) → (if elem x (map (λ e. e.0) set) then some tt else none) ≡ lookup x set
unfolding elem lookup
elem-keys x [] = refl
elem-keys x ((y, _) ∷ set) = ground (arith, elem-keys x set)

if_injective :
    (a b : Bool) → (if a then some (tt {0}) else none) ≡ (if b then some tt else none) → a ≡ b
if_injective a b h = ground arith

module _ (masks : CpuMask) where
  open masks use {Mask, empty, set, is_set, fits, is_set-empty, is_set-set}

  is_set-mask_from :
      (m : Mask) (cpus : List ℤ) (d : ℤ)
      → is_set (mask_from masks m cpus) d ≡ ((elem d cpus && fits d) || is_set m d)
  unfolding mask_from elem
  is_set-mask_from m [] d = refl
  is_set-mask_from m (c ∷ cs) d =
      is_set-mask_from (set c m) cs d ∙ ground (arith, is_set-set c d m, ==ℤ_iff c d)

  -- The mask allows the chosen CPUs and no other, of those that a mask has a bit for.
  pub is_set-mask_of :
      (cpus : List ℤ) (d : ℤ) → is_set (mask_of masks cpus) d ≡ (elem d cpus && fits d)
  unfolding mask_of
  is_set-mask_of cpus d = is_set-mask_from empty cpus d ∙ ground (arith, is_set-empty d)

  module _ (proc : ProcFs) (order : List ℤ → List ℤ)
      (reorders : (xs : List ℤ) → Perm (order xs) xs) where
    calls_of :
        (xs : List ℤ) (m : Mask)
        → map (λ (call : ℤ × Mask). call.0) (map (λ target. (target, m)) xs) ≡ xs
    calls_of [] m = refl
    calls_of (x ∷ xs) m = ap (◌∷◌ x) (calls_of xs m)

    masks_of :
        (xs : List ℤ) (m : Mask)
        → All (λ (call : ℤ × Mask). call.1 ≡ m) (map (λ target. (target, m)) xs)
    masks_of [] m = tt
    masks_of (x ∷ xs) m = (refl, masks_of xs m)

    -- Whatever order the map is gone through in, the processes and threads of the VM get the mask, and
    -- nothing else gets one.
    pub pin_all-targets :
        (pid : ℤ) (m : Mask) (x : ℤ)
        → (elem x (map (λ call. call.0) (pin_all masks proc order pid m))
            ≡ elem x (targets proc pid))
          × All (λ call. call.1 ≡ m) (pin_all masks proc order pid m)
    unfolding pin_all
    pin_all-targets pid m x = (
      ap (elem x) (calls_of _ m)
          ∙ elem-perm x (reorders _)
          ∙ if_injective _ _ (
              elem-keys x (collect_pids_to_update proc pid)
              ∙ lookup-collect_pids_to_update x proc pid),
      masks_of _ m,
    )
