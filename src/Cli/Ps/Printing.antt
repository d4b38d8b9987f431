-- ===== src/Cli/Ps/Printing.antt =====
-- What the command prints, a line at a time.
use proxmox_cpu_affinity.Base.{
  ℕ, ◌-◌, Bool, ltb, if◌then◌else◌, List, [], ◌∷◌, ◌++◌, map, length, replicate, none, some, Bytes,
  codes, format_uint, itoa, ◌≡◌, refl,
}
use proxmox_cpu_affinity.Cli.Ps.Types.{
  PsRow, PsError, pid_file_not_found, invalid_pid, process_not_running, PsInfo,
}

-- `%-*s` with the width that is given.
pad : ℕ → Bytes → Bytes
pad width s = s ++ replicate (width - length s) b' '

-- The six columns that are padded, and the last one.
padded : Bytes → Bytes → Bytes → Bytes → Bytes → Bytes → Bytes → Bytes
unfolding pad
padded vmid pid cores sockets numa hook_status affinity =
    pad 8 vmid
    ++ b' ' ∷ pad 10 pid
    ++ b' ' ∷ pad 6 cores
    ++ b' ' ∷ pad 8 sockets
    ++ b' ' ∷ pad 5 numa
    ++ b' ' ∷ pad 12 hook_status
    ++ b' ' ∷ affinity

print_ps_header : List Bytes
unfolding padded pad
print_ps_header =
    padded (codes "VMID") (codes "PID") (codes "Cores") (codes "Sockets") (codes "NUMA")
      (codes "Hook-Status") (pad 20 (codes "Affinity"))
    ∷ padded (codes "----") (codes "---") (codes "-----") (codes "-------") (codes "----")
        (codes "-----------") (pad 20 (codes "--------"))
    ∷ []

-- `parse_error` is the text of strconv's error on a text.
error_text : (Bytes → Bytes) → PsError → Bytes
error_text parse_error pid_file_not_found = codes "VM is not running (PID file not found)"
error_text parse_error (invalid_pid text) = codes "Invalid PID in file: " ++ parse_error text
error_text parse_error process_not_running = codes "Process not running"

print_row : PsRow → Bytes
print_row r = codes "    " ++ r.id ++ b' ' ∷ r.psr ++ b' ' ∷ r.command

-- A table with its title, unless it is empty.
print_rows : Bytes → List PsRow → List Bytes
unfolding print_row
print_rows title rows = if ltb 0 (length rows) then title ∷ map print_row rows else []

print_details : PsInfo → List Bytes
unfolding print_rows
print_details info =
    print_rows (codes "  Threads (TID PSR COMMAND):") info.threads
    ++ print_rows (codes "  Child Processes (PID PSR COMMAND):") info.children
    ++ [] ∷ []

print_vm_process_info : (Bytes → Bytes) → Bool → PsInfo → List Bytes
unfolding padded print_details error_text
print_vm_process_info parse_error verbose info = elim info.failure [
  | some e ↦
      (codes "Error: VM " ++ format_uint info.vmid ++ codes ": " ++ error_text parse_error e) ∷ []
  | none ↦
      padded (format_uint info.vmid) (format_uint info.pid) (itoa info.cores) (itoa info.sockets)
        (if info.numa then codes "1" else codes "0") info.hook_status info.affinity
      ∷ (if verbose then print_details info else [])
]

pad_test : pad 5 (codes "0") ≡ codes "0    "
unfolding pad
pad_test = refl
