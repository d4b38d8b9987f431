-- ===== src/Scheduler/Affinity/Effects.antt =====
-- `UpdateAffinity` as a whole: what it does to the VM's processes and to the shared state.
use proxmox_cpu_affinity.Base.{
  ℕ, ℤ, pos, negsuc, ◌==ℤ◌, ==ℤ_iff, mul_int, true, false, Bool-cases, ◌==ᵇ◌, ==ᵇ_iff, List, [],
  ◌++◌, map, join, itoa, codes, Result, ok, err, Result-cases, ◌≡◌, ◌≢◌, refl, ap, inl, inr, arith,
}
use proxmox_cpu_affinity.CpuInfo.Types.{CpuInfo, CpuInfoError}
use proxmox_cpu_affinity.CpuInfo.Selection.{select_cpus}
use proxmox_cpu_affinity.CpuInfo.Selection.Outcome.{
  Outcome, no_ranking, kept, too_few, too_many, placed, select_cpus-Outcome,
}
use proxmox_cpu_affinity.Proxmox.{VmConfig, Host, get_vm_config, get_vm_pid}
use proxmox_cpu_affinity.Scheduler.Mask.{CpuMask}
use proxmox_cpu_affinity.Scheduler.Processes.{ProcFs}
use proxmox_cpu_affinity.Scheduler.Affinity.{
  Effect, SchedulerError, invalid_configuration, not_running, proxmox_failed, mask_of, pin_all,
  apply_affinity, place_running, describe, fail, update_affinity,
}

Outcome-err :
    {F : Type 0} (vmid requested : ℤ) {c : CpuInfo F} {r : Result CpuInfoError (List ℤ) × CpuInfo F}
    {e : CpuInfoError}
    → Outcome vmid requested c r
    → r.0 ≡ err e
    → r.1 ≡ c
Outcome-err vmid requested (no_ranking h q) x = ap (λ r. r.1) q
Outcome-err vmid requested (kept cores z f s q) x = ap (λ r. r.1) q
Outcome-err vmid requested (too_few v h q) x = ap (λ r. r.1) q
Outcome-err vmid requested (too_many n v h f q) x = ap (λ r. r.1) q
Outcome-err vmid requested (placed n primary v a b d f q) x = cc

-- The number of CPUs that a VM asks for.
abbrev pub requested_of : VmConfig → ℤ
requested_of config = mul_int config.cores config.sockets

module _ {F : Type 0} (masks : CpuMask) (proc : ProcFs) (order : List ℤ → List ℤ) where
  open masks use {Mask}

  -- No process is touched, and the state is as before.
  abbrev Untouched : CpuInfo F → Effect F Mask (List ℕ) → Type 0
  Untouched c e = (e.calls ≡ []) × (e.cpu_info ≡ c)

  -- The cases of `UpdateAffinity`.
  pub data Update (h : Host) (vmid : ℤ) (c : CpuInfo F) (e : Effect F Mask (List ℕ)) : Type 0 where
    failed : (failure : SchedulerError) → e.result ≡ err failure → Untouched c e → Update h vmid c e
    manual :
        (config : VmConfig)
        → get_vm_config h vmid ≡ ok config
        → config.affinity ≢ []
        → e.result ≡ ok (codes "vm has an affinity configuration " ++ config.affinity)
        → Untouched c e
        → Update h vmid c e
    skipped :
        (config : VmConfig) (reason : CpuInfoError)
        → get_vm_config h vmid ≡ ok config
        → config.affinity ≡ []
        → (select_cpus vmid (requested_of config) c).0 ≡ err reason
        → e.result ≡ ok (codes "new affinity: ")
        → Untouched c e
        → Update h vmid c e
    pinned :
        (config : VmConfig) (pid : ℤ) (cpus : List ℤ)
        → get_vm_config h vmid ≡ ok config
        → get_vm_pid h vmid ≡ ok pid
        → pid ≢ negsuc 0
        → config.affinity ≡ []
        → requested_of config ≢ pos 0
        → select_cpus vmid (requested_of config) c ≡ (ok cpus, e.cpu_info)
        → e.result ≡ ok (codes "new affinity: " ++ join (codes ",") (map itoa cpus))
        → e.calls ≡ pin_all masks proc order pid (mask_of masks cpus)
        → Update h vmid c e

  module _ (h : Host) (vmid : ℤ) (c : CpuInfo F) where
    apply_affinity_zero :
        (config : VmConfig) (pid : ℤ)
        → (requested_of config ==ℤ pos 0) ≡ true
        → apply_affinity masks proc order vmid pid config c ≡ fail invalid_configuration c
    unfolding apply_affinity
    apply_affinity_zero config pid z = rw z

    apply_affinity_err :
        (config : VmConfig) (pid : ℤ) {reason : CpuInfoError}
        → (requested_of config ==ℤ pos 0) ≡ false
        → (select_cpus vmid (requested_of config) c).0 ≡ err reason
        → apply_affinity masks proc order vmid pid config c
          ≡ record { result = ok []; cpu_info = c; calls = [] }
    unfolding apply_affinity
    apply_affinity_err config pid z s =
        let same =
          Outcome-err vmid (requested_of config) (select_cpus-Outcome vmid (requested_of config) c)
            s in
        rw (z, s, same)

    apply_affinity_ok :
        (config : VmConfig) (pid : ℤ) {cpus : List ℤ}
        → (requested_of config ==ℤ pos 0) ≡ false
        → (select_cpus vmid (requested_of config) c).0 ≡ ok cpus
        → apply_affinity masks proc order vmid pid config c ≡ record {
          result = ok (join (codes ",") (map itoa cpus));
          cpu_info = (select_cpus vmid (requested_of config) c).1;
          calls = pin_all masks proc order pid (mask_of masks cpus);
        }
    unfolding apply_affinity
    apply_affinity_ok config pid z s = rw (z, s)

    place_running-Update :
        (config : VmConfig) (pid : ℤ)
        → get_vm_config h vmid ≡ ok config
        → get_vm_pid h vmid ≡ ok pid
        → pid ≢ negsuc 0
        → Update h vmid c (place_running masks proc order vmid pid config c)
    unfolding place_running describe
    place_running-Update config pid p q alive = elim (Bool-cases (config.affinity ==ᵇ [])) [
      | inr e ↦
          rw e (manual config p (ground (arith, ==ᵇ_iff config.affinity [])) refl (refl, refl))
      | inl e ↦ elim (Bool-cases (requested_of config ==ℤ pos 0)) [
        | inl z ↦
            rw (e, apply_affinity_zero config pid z)
              (failed invalid_configuration refl (refl, refl))
        | inr z ↦ elim (Result-cases (select_cpus vmid (requested_of config) c).0) [
          | inl (cpus, s) ↦
              rw (e, apply_affinity_ok config pid z s)
                (pinned config pid cpus p q alive (ground (arith, ==ᵇ_iff config.affinity []))
                  (ground (arith, ==ℤ_iff (requested_of config) (pos 0)))
                  (λ i. (s i, (select_cpus vmid (requested_of config) c).1)) refl refl)
          | inr (reason, s) ↦
              rw (e, apply_affinity_err config pid z s)
                (skipped config reason p (ground (arith, ==ᵇ_iff config.affinity [])) s refl
                  (refl, refl))
        ]
      ]
    ]

    -- `UpdateAffinity` either fails, leaves a VM with an affinity of its own alone, gives up because
    -- no CPUs can be selected, or pins. Only in the last case it makes a system call or changes the
    -- selections: the VM is running and has no affinity of its own, and the processes get the mask of
    -- the CPUs that were selected for cores times sockets.
    pub update_affinity-Update : Update h vmid c (update_affinity masks proc order h vmid c)
    unfolding update_affinity
    update_affinity-Update = elim (Result-cases (get_vm_config h vmid)) [
      | inr (e, p) ↦ rw (p, update_affinity) (failed (proxmox_failed e) refl (refl, refl))
      | inl (config, p) ↦ elim (Result-cases (get_vm_pid h vmid)) [
        | inr (e, q) ↦ rw (p, q, update_affinity) (failed (proxmox_failed e) refl (refl, refl))
        | inl (pid, q) ↦ elim (Bool-cases (pid ==ℤ negsuc 0)) [
          | inl z ↦ rw (p, q, z, update_affinity) (failed not_running refl (refl, refl))
          | inr z ↦
              rw (p, q, z, update_affinity)
                (place_running-Update config pid p q (ground (arith, ==ℤ_iff pid (negsuc 0))))
        ]
      ]
    ]
