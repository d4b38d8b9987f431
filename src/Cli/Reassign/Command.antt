-- ===== src/Cli/Reassign/Command.antt =====
-- cmd/cli/reassign.go: the command as a whole, from its arguments to the printed lines.
use proxmox_cpu_affinity.Base.{
  ℕ, ◌-◌, Bool, not, if◌then◌else◌, List, [], ◌∷◌, ◌++◌, map, length, replicate, Option, none, some,
  Bytes, codes, format_uint, SliceSort, Result, ok, err, ◌≡◌, refl,
}
use proxmox_cpu_affinity.Cli.Session.{Session, Executor, number_or_zero}
use proxmox_cpu_affinity.Cli.Reassign.{
  ReassignStatus, skipped_unreadable, skipped_disabled, would_reassign, service_failed, success,
  refused, ReassignResult, Progress, Placing, reassign_vms, arguments_fit, get_all_running_vm_ids,
}

-- How the command ends: cobra refuses the arguments, the program exits with status 1 since this is
-- no Proxmox host or the pid files cannot be listed, or it ends in the regular way.
pub data Ending : Type 0 where
  arguments_refused no_proxmox_host no_running_list no_running_vms reassigned : Ending

-- `vmidsToProcess`. The files are what the glob finds, or `none` for its error.
unfoldable pub vmids_to_process :
    SliceSort ℕ → Option (List Bytes) → List Bytes → Result Ending (List ℕ)
unfolding get_all_running_vm_ids number_or_zero
vmids_to_process sorting files (vmid ∷ []) = ok (number_or_zero vmid ∷ [])
vmids_to_process sorting none args = err no_running_list
vmids_to_process sorting (some files) args = elim (get_all_running_vm_ids sorting files) [
  | [] ↦ err no_running_vms
  | vmid ∷ vmids ↦ ok (vmid ∷ vmids)
]

unfoldable pub start : Session → Progress
start s = record { session = s; requests = []; results = [] }

unfoldable pub reassign_these :
    Executor → Placing → Bool → Result Ending (List ℕ) → Session → Ending × Progress
unfolding start reassign_vms
reassign_these exec service dry_run (err end) s = (end, start s)
reassign_these exec service dry_run (ok vmids) s =
    (reassigned, reassign_vms exec service dry_run vmids (start s))

-- The command, where `host` says what `ensureProxmoxHost` finds.
unfoldable pub reassign :
    SliceSort ℕ
    → Executor
    → Placing
    → Bool
    → Option (List Bytes)
    → Bool
    → Bool
    → List Bytes
    → Session
    → Ending × Progress
unfolding arguments_fit vmids_to_process reassign_these
reassign sorting exec service host files all dry_run args s =
    if not (arguments_fit all args)
    then (arguments_refused, start s)
    else if not host
    then (no_proxmox_host, start s)
    else reassign_these exec service dry_run (vmids_to_process sorting files args) s

status_text : ReassignStatus → Bytes
status_text skipped_unreadable = codes "skipped"
status_text skipped_disabled = codes "skipped"
status_text would_reassign = codes "dry-run"
status_text service_failed = codes "failed"
status_text (refused text) = codes "failed"
status_text success = codes "success"

-- The field `Error`, where `cause` is the text of the error that Go's library returned.
error_of : Bytes → ReassignStatus → Bytes
error_of cause skipped_unreadable = codes "failed to get VM config: " ++ cause
error_of cause skipped_disabled = codes "proxmox-cpu-affinity hook not enabled"
error_of cause would_reassign = codes "would reassign"
error_of cause service_failed = codes "service call failed: " ++ cause
error_of cause (refused text) = text
error_of cause success = []

-- `%-8d %-10s %s`.
columns : Bytes → Bytes → Bytes → Bytes
columns vmid status notes =
    (vmid ++ replicate (8 - length vmid) b' ')
    ++ b' ' ∷ (status ++ replicate (10 - length status) b' ')
    ++ b' ' ∷ notes

print_reassign_result : (ℕ → Bytes) → ReassignResult → Bytes
unfolding columns status_text error_of
print_reassign_result cause res =
    columns (format_uint res.vmid) (status_text res.status) (error_of (cause res.vmid) res.status)

-- What the command prints once it has begun: two lines of header, and one for each result.
printed_lines : (ℕ → Bytes) → Progress → List Bytes
unfolding columns print_reassign_result
printed_lines cause p =
    columns (codes "VMID") (codes "Status") (codes "Notes")
    ∷ columns (codes "----") (codes "------") (codes "-----")
    ∷ map (print_reassign_result cause) p.results

line_test :
    print_reassign_result (λ vmid. []) (record { vmid = 100; status = would_reassign })
    ≡ codes "100      dry-run    would reassign"
unfolding print_reassign_result columns status_text error_of format_uint
line_test = refl
