-- ===== src/Scheduler/Affinity.antt =====
-- `ApplyAffinity` of pkg/scheduler/affinity.go and `UpdateAffinity` of pkg/scheduler/scheduler.go.
-- A system call that sets an affinity is an entry of the list that is returned: the process and the
-- mask. A failed call is logged and the loop goes on, so its result plays no part.
pub mod Masks
pub mod Effects
use proxmox_cpu_affinity.Base.{
  ℕ, ℤ, pos, negsuc, ◌==ℤ◌, mul_int, Bool, not, if◌then◌else◌, List, [], ◌∷◌, ◌++◌, map, Bytes,
  codes, ◌==ᵇ◌, join, itoa, Result, ok, err,
}
use proxmox_cpu_affinity.CpuInfo.Types.{CpuInfo}
use proxmox_cpu_affinity.CpuInfo.Selection.{select_cpus}
use proxmox_cpu_affinity.Proxmox.{VmConfig, Host, ProxmoxError, get_vm_config, get_vm_pid}
use proxmox_cpu_affinity.Scheduler.Mask.{CpuMask}
use proxmox_cpu_affinity.Scheduler.Processes.{ProcFs, collect_pids_to_update}

pub data SchedulerError : Type 0 where
  invalid_configuration not_running : SchedulerError
  proxmox_failed : ProxmoxError → SchedulerError

-- What a call leaves behind: its result, the shared state, and the system calls it made.
pub record Effect (F Mask A : Type 0) : Type 0 where
  pub result : Result SchedulerError A
  pub cpu_info : CpuInfo F
  pub calls : List (ℤ × Mask)

-- The message of the answer.
describe : {F Mask : Type 0} → Effect F Mask Bytes → Effect F Mask Bytes
describe e = elim e.result [
  | err failure ↦ record { result = err failure; cpu_info = e.cpu_info; calls = e.calls }
  | ok affinity ↦ record {
    result = ok (codes "new affinity: " ++ affinity);
    cpu_info = e.cpu_info;
    calls = e.calls;
  }
]

abbrev fail : {F Mask : Type 0} → SchedulerError → CpuInfo F → Effect F Mask Bytes
fail e c = record { result = err e; cpu_info = c; calls = [] }

module _ (masks : CpuMask) where
  open masks use {Mask, empty, set}

  -- `mask.Set` for each CPU in turn.
  mask_from : Mask → List ℤ → Mask
  mask_from m [] = m
  mask_from m (c ∷ cs) = mask_from (set c m) cs

  unfoldable pub mask_of : List ℤ → Mask
  unfolding mask_from
  mask_of cpus = mask_from empty cpus

  -- The order in which Go goes through the keys of a map is not specified: `order` gives it.
  module _ (proc : ProcFs) (order : List ℤ → List ℤ) where
    unfoldable pub pin_all : ℤ → Mask → List (ℤ × Mask)
    pin_all pid mask =
        map (λ target. (target, mask)) (order (map (λ e. e.0) (collect_pids_to_update proc pid)))

    unfoldable pub apply_affinity :
        {F : Type 0} → ℤ → ℤ → VmConfig → CpuInfo F → Effect F Mask Bytes
    apply_affinity vmid pid config c =
        let count = mul_int config.cores config.sockets in
        if count ==ℤ pos 0
        then record { result = err invalid_configuration; cpu_info = c; calls = [] }
        else let (selected, c') = select_cpus vmid count c in
          elim selected [
            | err e ↦ record { result = ok []; cpu_info = c'; calls = [] }
            | ok cpus ↦ record {
              result = ok (join (codes ",") (map itoa cpus));
              cpu_info = c';
              calls = pin_all pid (mask_of cpus);
            }
          ]

    place_running : {F : Type 0} → ℤ → ℤ → VmConfig → CpuInfo F → Effect F Mask Bytes
    place_running vmid pid config c =
        if not (config.affinity ==ᵇ [])
        then record {
          result = ok (codes "vm has an affinity configuration " ++ config.affinity);
          cpu_info = c;
          calls = [];
        }
        else describe (apply_affinity vmid pid config c)

    unfoldable pub update_affinity : {F : Type 0} → Host → ℤ → CpuInfo F → Effect F Mask Bytes
    unfolding place_running describe
    update_affinity h vmid c = elim (get_vm_config h vmid) [
      | err e ↦ fail (proxmox_failed e) c
      | ok config ↦ elim (get_vm_pid h vmid) [
        | err e ↦ fail (proxmox_failed e) c
        | ok pid ↦ if pid ==ℤ negsuc 0 then fail not_running c else place_running vmid pid config c
      ]
    ]
