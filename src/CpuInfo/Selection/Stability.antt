-- ===== src/CpuInfo/Selection/Stability.antt =====
-- A VM keeps its CPUs while the ranking stays, whatever other VMs ask for in between.
use proxmox_cpu_affinity.Base.{
  ◌<◌, ℤ, pos, ==ℤ_iff, List, [], ◌∷◌, length, some, Result, ok, lookup, lookup-insert, ◌≡◌, ◌≢◌,
  subst, ◌∙◌, arith, All,
}
use proxmox_cpu_affinity.CpuInfo.Types.{CpuInfo, CpuInfoError}
use proxmox_cpu_affinity.CpuInfo.Selection.{select_cpus}
use proxmox_cpu_affinity.CpuInfo.Selection.Outcome.{
  Outcome, no_ranking, kept, too_few, too_many, placed, select_cpus-Outcome,
}
use proxmox_cpu_affinity.CpuInfo.Selection.Invariant.{IsConsistent, select_cpus-IsPlacement}

module _ {F : Type 0} where
  -- Calls of `SelectCPUs`, each for a VM and a number of CPUs, in the order in which they get the lock.
  unfoldable pub select_all : List (ℤ × ℤ) → CpuInfo F → CpuInfo F
  select_all [] c = c
  select_all ((vmid, requested) ∷ calls) c = select_all calls (select_cpus vmid requested c).1

  -- The state holds `cores` for the VM, and a ranking.
  abbrev Holds : ℤ → List ℤ → CpuInfo F → Type 0
  Holds vmid cores c = (0 < length c.cache) × (lookup vmid c.selections ≡ some cores)

  Outcome-Holds :
      (vmid other requested : ℤ) {c : CpuInfo F} {r : Result CpuInfoError (List ℤ) × CpuInfo F}
      (cores : List ℤ)
      → other ≢ vmid
      → Holds vmid cores c
      → Outcome other requested c r
      → Holds vmid cores r.1
  Outcome-Holds vmid other requested cores ne h (no_ranking g e) = rw e h
  Outcome-Holds vmid other requested cores ne h (kept xs z f s e) = rw e h
  Outcome-Holds vmid other requested cores ne h (too_few v g e) = rw e h
  Outcome-Holds vmid other requested cores ne h (too_many n v g f e) = rw e h
  Outcome-Holds vmid other requested {c} cores ne h (placed n primary v q k f g e) =
      rw e (h.0, lookup-insert other vmid _ c.selections ∙ ground (arith, ==ℤ_iff other vmid))

  select_all-Holds :
      (vmid : ℤ) (cores : List ℤ) (calls : List (ℤ × ℤ)) (c : CpuInfo F)
      → All (λ call. call.0 ≢ vmid) calls
      → Holds vmid cores c
      → Holds vmid cores (select_all calls c)
  unfolding select_all
  select_all-Holds vmid cores [] c ne h = h
  select_all-Holds vmid cores ((other, requested) ∷ calls) c ne h =
      select_all-Holds vmid cores calls _ ne.1
        (Outcome-Holds vmid other requested cores ne.0 h (select_cpus-Outcome other requested c))

  Outcome-Holds_own :
      (vmid requested : ℤ) {c : CpuInfo F} {r : Result CpuInfoError (List ℤ) × CpuInfo F}
      (cores : List ℤ)
      → Outcome vmid requested c r
      → r.0 ≡ ok cores
      → Holds vmid cores r.1
  Outcome-Holds_own vmid requested cores (no_ranking g e) q = cc
  Outcome-Holds_own vmid requested cores (kept xs z f s e) q = ground arith
  Outcome-Holds_own vmid requested cores (too_few v g e) q = cc
  Outcome-Holds_own vmid requested cores (too_many n v g f e) q = cc
  Outcome-Holds_own vmid requested {c} cores (placed n primary v g k f i e) q =
      rw e (omega arith, lookup-insert vmid vmid _ c.selections ∙ ground (arith, ==ℤ_iff vmid vmid))

  select_cpus_held :
      (vmid : ℤ) (cores : List ℤ) (c : CpuInfo F)
      → Holds vmid cores c
      → select_cpus vmid (pos (length cores)) c ≡ (ok cores, c)
  unfolding select_cpus
  select_cpus_held vmid cores c h =
      ground (arith, ==ℤ_iff (pos (length cores)) (pos (length cores)))

  -- After a successful call for a VM, and any calls for other VMs, a call for that VM and as many
  -- CPUs returns the same CPUs and changes nothing.
  pub select_cpus_stable :
      (vmid requested : ℤ) (c : CpuInfo F) (cores : List ℤ) (calls : List (ℤ × ℤ))
      → IsConsistent c
      → (select_cpus vmid requested c).0 ≡ ok cores
      → All (λ call. call.0 ≢ vmid) calls
      → let later = select_all calls (select_cpus vmid requested c).1 in
        select_cpus vmid requested later ≡ (ok cores, later)
  select_cpus_stable vmid requested c cores calls v q ne =
      let held = Outcome-Holds_own vmid requested cores (select_cpus-Outcome vmid requested c) q in
      subst
        (λ k.
          select_cpus vmid k (select_all calls (select_cpus vmid requested c).1)
          ≡ (ok cores, select_all calls (select_cpus vmid requested c).1))
        (select_cpus-IsPlacement vmid requested c cores v q).size
        (select_cpus_held vmid cores _ (select_all-Holds vmid cores calls _ ne held))
