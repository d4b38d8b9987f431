-- ===== src/Cli/Reassign/Results/Asked.antt =====
-- The command line of `reassign`, cmd/cli/reassign.go: which VMs it reports on.
use proxmox_cpu_affinity.Base.{
  ℕ, Bool, true, false, List, [], ◌∷◌, some, Bytes, format_uint, max_uint64, ◌≤◌,
  parse_uint-format_uint, SliceSort, ok, ◌≡◌, refl,
}
use proxmox_cpu_affinity.Cli.Session.{Session, Executor, is_numeric, number_or_zero}
use proxmox_cpu_affinity.Cli.Reassign.{Placing, Progress, arguments_fit, get_all_running_vm_ids}
use proxmox_cpu_affinity.Cli.Reassign.Command.{
  Ending, start, vmids_to_process, reassign_these, reassign,
}
use proxmox_cpu_affinity.Cli.Reassign.Results.{asked, IsReported, vmids_of, reassign_vms-IsReported}

-- The command lines and the VMs that they name: one VM by its number, or with --all those that run.
pub data Names (running : List ℕ) : Bool → List Bytes → List ℕ → Type 0 where
  one : (vmid : ℕ) → vmid ≤ max_uint64 → Names running false (format_uint vmid ∷ []) (vmid ∷ [])
  all_running : Names running true [] running

module _ (exec : Executor) (service : Placing) (dry_run : Bool) (s : Session) where
  abbrev Reports : List ℕ → Ending × Progress → Type 0
  Reports vmids r = IsReported dry_run r.1 × (vmids_of r.1.results ≡ vmids)

  start-IsReported : IsReported dry_run (start s)
  unfolding start asked
  start-IsReported = record { told = refl; quiet = λ e. refl }

  reassign_these-Reports :
      (vmids : List ℕ) → Reports vmids (reassign_these exec service dry_run (ok vmids) s)
  unfolding reassign_these start
  reassign_these-Reports vmids =
      reassign_vms-IsReported dry_run exec service vmids (start s) start-IsReported

  reassign_these-running :
      (sorting : SliceSort ℕ) (files : List Bytes) (running : List ℕ)
      → get_all_running_vm_ids sorting files ≡ running
      → Reports running
          (reassign_these exec service dry_run (vmids_to_process sorting (some files) []) s)
  unfolding vmids_to_process reassign_these
  reassign_these-running sorting files [] e = rw (e, vmids_to_process) (start-IsReported, refl)
  reassign_these-running sorting files (vmid ∷ vmids) e =
      rw (e, vmids_to_process) (reassign_these-Reports (vmid ∷ vmids))

  -- On a Proxmox host, `reassign` with the number of a VM reports on that VM, and `reassign --all`
  -- on the VMs that have a pid file, in the order that sort.Slice gives. The
  -- service is asked to place exactly the VMs whose result tells of a request, in that order, and
  -- in a dry run none.
  pub reassign-Names :
      (sorting : SliceSort ℕ) (files : List Bytes) (all : Bool) (args : List Bytes) (vmids : List ℕ)
      → Names (get_all_running_vm_ids sorting files) all args vmids
      → IsReported dry_run (reassign sorting exec service true (some files) all dry_run args s).1
        × (vmids_of (reassign sorting exec service true (some files) all dry_run args s).1.results
            ≡ vmids)
  unfolding reassign arguments_fit vmids_to_process is_numeric number_or_zero
  reassign-Names sorting files all args vmids (one vmid le) =
      rw (parse_uint-format_uint vmid le, reassign, is_numeric, number_or_zero)
        (reassign_these-Reports (vmid ∷ []))
  reassign-Names sorting files all args vmids all_running =
      reassign_these-running sorting files (get_all_running_vm_ids sorting files) refl
