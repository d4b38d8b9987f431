-- ===== src/Cli/Ps/Process.antt =====
-- `getVMProcessInfo` of cmd/cli/ps.go, and the command. What the pid files hold is a parameter.
use proxmox_cpu_affinity.Base.{
  ℕ, ltb, leb, ◌==◌, pos, Bool, true, false, not, ◌&&◌, ◌||◌, ◌==ᵇ◌, if◌then◌else◌, List, [], ◌∷◌,
  ◌++◌, map, Option, none, some, Bytes, codes, split, fields, join, trim_space, parse_uint,
  SliceSort,
}
use proxmox_cpu_affinity.Cli.Session.{is_numeric, number_or_zero}
use proxmox_cpu_affinity.Cli.Ps.Types.{
  PsRow, PsExecutor, PsError, ps_run, PsInfo, PsLog, pid_file_not_found, list_threads,
  check_process, list_children, find_children, invalid_pid, read_affinity, process_not_running,
  read_config,
}
use proxmox_cpu_affinity.Cli.Ps.Settings.{cut, read_lines, default_settings}

-- The part of what `taskset` prints behind its first colon.
unfoldable pub affinity_of : Bytes → Bytes
unfolding cut
affinity_of text = elim (cut b':' (trim_space text)) [
  | none ↦ trim_space text
  | some (before, behind) ↦ trim_space behind
]

-- The row of one line, where it has three fields or more.
row_of : List Bytes → List PsRow
row_of [] = []
row_of (a ∷ []) = []
row_of (a ∷ b ∷ []) = []
row_of (a ∷ b ∷ c ∷ rest) = record { id = a; psr = b; command = join (codes " ") (c ∷ rest) } ∷ []

rows_in : List Bytes → List PsRow
unfolding row_of
rows_in [] = []
rows_in (line ∷ lines) = row_of (fields line) ++ rows_in lines

-- The rows of a table, whose first line is its head.
unfoldable pub table_rows : Bytes → List PsRow
unfolding rows_in
table_rows text = elim (split b'\n' text) [ [] ↦ [] | head ∷ lines ↦ rows_in lines ]

-- `strings.ReplaceAll(text, "\n", ",")`.
unfoldable pub commas : Bytes → Bytes
commas = map (λ c. if c == b'\n' then b',' else c)

abbrev pub is_pid_char : ℕ → Bool
is_pid_char c = leb 48 c && leb c 57 || c == b','

-- The loop over the characters.
unfoldable pub all_pid_chars : Bytes → Bool
all_pid_chars [] = true
all_pid_chars (c ∷ s) = if not (is_pid_char c) then false else all_pid_chars s

-- `validChildren`.
unfoldable pub valid_children : Bytes → Bool
unfolding all_pid_chars
valid_children s = if s ==ᵇ [] then false else all_pid_chars s

unfoldable pub child_rows : PsExecutor → Bytes → PsLog → List PsRow × PsLog
unfolding ps_run table_rows valid_children
child_rows exec pids log =
    let (reply, log1) = ps_run exec (list_children pids) log in
    if valid_children pids then (table_rows reply.output, log1) else ([], log)

-- What `verbose` adds.
unfoldable pub add_details : PsExecutor → ℕ → PsInfo × PsLog → PsInfo × PsLog
unfolding ps_run table_rows commas child_rows
add_details exec pid (info, log) =
    let (threads, log1) = ps_run exec (list_threads pid) log in
    let (found, log2) = ps_run exec (find_children pid) log1 in
    let (rows, log3) = child_rows exec (commas (trim_space found.output)) log2 in
    (record info { threads = table_rows threads.output; children = rows }, log3)

unfoldable pub only_failed : ℕ → PsError → PsInfo
only_failed vmid e = record {
  vmid = vmid;
  pid = 0;
  hook_status = [];
  cores = pos 0;
  sockets = pos 0;
  numa = false;
  affinity = [];
  threads = [];
  children = [];
  failure = some e;
}

-- A VM for which there is nothing to show is left out, unless it was asked for.
abbrev pub when : {A : Type 0} → Bool → A → Option A
when explicit info = if explicit then some info else none

unfoldable pub found_process : PsExecutor → Bool → Bool → PsInfo → PsLog → Option PsInfo × PsLog
unfolding ps_run affinity_of add_details
found_process exec verbose explicit info log =
    let (alive, log1) = ps_run exec (check_process info.pid) log in
    let (text, log2) = ps_run exec (read_affinity info.pid) log1 in
    let shown = record info { affinity = affinity_of text.output } in
    let (detailed, log3) = add_details exec info.pid (shown, log2) in
    if alive.failed
    then (when explicit (record info { failure = some process_not_running }), log1)
    else if verbose
    then (some detailed, log3)
    else (some shown, log2)

-- `getVMProcessInfo`, for what the pid file of a VM holds, or `none` where it cannot be read. The
-- text that `qm` printed before it failed counts.
unfoldable pub get_vm_process_info :
    PsExecutor → (ℕ → Option Bytes) → ℕ → Bool → Bool → PsLog → Option PsInfo × PsLog
unfolding found_process ps_run read_lines only_failed
get_vm_process_info exec pid_reader vmid verbose explicit log = elim (pid_reader vmid) [
  | none ↦ (when explicit (only_failed vmid pid_file_not_found), log)
  | some text ↦ elim (parse_uint (trim_space text)) [
    | none ↦ (when explicit (only_failed vmid (invalid_pid (trim_space text))), log)
    | some pid ↦
        let (config, log1) = ps_run exec (read_config vmid) log in
        let s = read_lines (split b'\n' config.output) default_settings in
        found_process exec verbose explicit
          (record {
            vmid = vmid;
            pid = pid;
            hook_status = s.hook_status;
            cores = s.cores;
            sockets = s.sockets;
            numa = s.numa;
            affinity = [];
            threads = [];
            children = [];
            failure = none;
          })
          log1
  ]
]

-- The loop over the VMs.
unfoldable pub process_infos :
    PsExecutor → (ℕ → Option Bytes) → Bool → Bool → List ℕ → PsLog → List PsInfo × PsLog
unfolding get_vm_process_info
process_infos exec pid_reader verbose explicit [] log = ([], log)
process_infos exec pid_reader verbose explicit (vmid ∷ vmids) log =
    let (info, log1) = get_vm_process_info exec pid_reader vmid verbose explicit log in
    let (infos, log2) = process_infos exec pid_reader verbose explicit vmids log1 in
    (elim info [ none ↦ infos | some i ↦ i ∷ infos ], log2)

-- `Args`: at most one argument, and a number.
unfoldable pub ps_arguments_fit : List Bytes → Bool
ps_arguments_fit [] = true
ps_arguments_fit (vmid ∷ []) = is_numeric vmid
ps_arguments_fit (a ∷ b ∷ rest) = false

-- The results of the command, where `running` is what `getAllRunningVMIDs` returns.
unfoldable pub ps_results :
    SliceSort ℕ → PsExecutor → (ℕ → Option Bytes) → Bool → List ℕ → List Bytes → List PsInfo × PsLog
unfolding process_infos number_or_zero
ps_results sorting exec pid_reader verbose running [] =
    process_infos exec pid_reader verbose false (sorting.sort ltb running) []
ps_results sorting exec pid_reader verbose running (arg ∷ args) =
    process_infos exec pid_reader verbose true (number_or_zero arg ∷ []) []
