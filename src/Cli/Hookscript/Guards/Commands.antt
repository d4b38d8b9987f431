-- ===== src/Cli/Hookscript/Guards/Commands.antt =====
-- The commands of cmd/cli/hookscript.go as a whole: they change a VM only under the conditions.
use proxmox_cpu_affinity.Base.{
  ℕ, Bool, true, false, if_elim, ◌&&◌, List, map, [], ◌∷◌, Bytes, codes, contains, SliceSort, ◌≡◌,
  refl,
}
use proxmox_cpu_affinity.Cli.Session.{
  qm_config, Session, Executor, run, hook_name, get_vm_config_output,
}
use proxmox_cpu_affinity.Cli.Hookscript.{
  print_vm_list, vm_status, HookStatusInfo, is_ha_vm, update_vm_hook, process_all_vms, guarded,
  enable_command, disable_command, enable_all_command, disable_all_command,
}
use proxmox_cpu_affinity.Cli.Hookscript.Guards.{
  of_config, IsGuarded, queried, is_ha_vm-Holds, process_all_vms-Holds, guarded-Holds,
  with_storage-Holds,
}

-- The commands of `hookscript` that change a VM.
pub data Change : Type 0 where
  enable_one : ℕ → Bytes → Bool → Change
  disable_one : ℕ → Change
  enable_all : Bytes → Bool → Change
  disable_all : Change

unfoldable pub run_change : SliceSort ℕ → Executor → Bool → Change → Session → ℕ × Session
unfolding enable_command disable_command enable_all_command disable_all_command
run_change sorting exec dry_run (enable_one vmid storage force) =
    enable_command exec vmid storage force dry_run
run_change sorting exec dry_run (disable_one vmid) = disable_command exec vmid dry_run
run_change sorting exec dry_run (enable_all storage force) =
    enable_all_command sorting exec storage force dry_run
run_change sorting exec dry_run disable_all = disable_all_command sorting exec dry_run

-- The four commands set or delete a hook only for a VM that HA does not manage, right after a look
-- at the VM's configuration that showed no affinity as far as it could be read, and never in a dry
-- run; --force makes no difference to this. Whatever the programs that they run answer.
pub run_change-IsGuarded :
    (sorting : SliceSort ℕ) (exec : Executor) (dry_run : Bool) (change : Change) (s : Session)
    → IsGuarded dry_run s.ha_cache s.log
    → IsGuarded dry_run
        (run_change sorting exec dry_run change s).1.ha_cache
        (run_change sorting exec dry_run change s).1.log
unfolding run_change enable_command disable_command enable_all_command disable_all_command
run_change-IsGuarded sorting exec dry_run (enable_one vmid storage force) s g =
    with_storage-Holds dry_run exec storage force
      (guarded exec vmid (update_vm_hook exec vmid true storage dry_run)) s
      (guarded-Holds dry_run exec vmid true storage) g
run_change-IsGuarded sorting exec dry_run (disable_one vmid) s g =
    guarded-Holds dry_run exec vmid false [] s g
run_change-IsGuarded sorting exec dry_run (enable_all storage force) s g =
    with_storage-Holds dry_run exec storage force
      (λ t. (0, process_all_vms sorting exec true storage force dry_run t)) s
      (process_all_vms-Holds dry_run sorting exec true storage force) g
run_change-IsGuarded sorting exec dry_run disable_all s g =
    process_all_vms-Holds dry_run sorting exec false [] false s g

vm_status-vmid :
    (vmid : ℕ) (config : Bytes) (managed : Bool) → (vm_status vmid config managed).vmid ≡ vmid
unfolding vm_status
vm_status-vmid vmid config managed =
    let P : HookStatusInfo → Type 0 = λ row. row.vmid ≡ vmid in
    if_elim P managed (λ _. refl)
      λ _.
        if_elim P (contains config (codes "affinity:")) (λ _. refl)
          λ _.
            if_elim P (contains config (codes "hookscript: ") && contains config hook_name)
              (λ _. refl) (λ _. refl)

-- The list shows one row for each VM, in the order of the VMs, and changes nothing.
pub print_vm_list-IsGuarded :
    (dry_run : Bool) (exec : Executor) (vmids : List ℕ) (s : Session)
    → IsGuarded dry_run s.ha_cache s.log
    → (map (λ row. row.vmid) (print_vm_list exec vmids s).0 ≡ vmids)
      × IsGuarded dry_run (print_vm_list exec vmids s).1.ha_cache (print_vm_list exec vmids s).1.log
unfolding print_vm_list get_vm_config_output run
print_vm_list-IsGuarded dry_run exec [] s g = (refl, g)
print_vm_list-IsGuarded dry_run exec (vmid ∷ vmids) s g =
    let s1 = (get_vm_config_output exec vmid s).1 in
    let read : IsGuarded dry_run s1.ha_cache s1.log =
      queried (exec s.log (qm_config vmid)) (of_config vmid) g in
    let (h, free) = is_ha_vm-Holds dry_run exec vmid s1 read in
    let (rows, rest) = print_vm_list-IsGuarded dry_run exec vmids (is_ha_vm exec vmid s1).1 h in
    (
      λ i.
          vm_status-vmid vmid (get_vm_config_output exec vmid s).0 (is_ha_vm exec vmid s1).0 i
          ∷ rows i,
      rest,
    )
