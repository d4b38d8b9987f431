-- ===== src/Cli/Ps/Types.antt =====
-- The data of cmd/cli/ps.go and the programs that the command runs. The log of a run holds the newest
-- entry first, and what a program answers may depend on it.
use proxmox_cpu_affinity.Base.{ℕ, ℤ, Bool, List, [], ◌∷◌, Option, Bytes, codes, format_uint}
use proxmox_cpu_affinity.Cli.Session.{qm, Reply}

-- One line of a table of `ps`: `PSThread`, whose `id` is the field `TID`, and `PSChild`, whose `id`
-- is the field `PID`.
pub record PsRow : Type 0 where
  pub id : Bytes
  pub psr : Bytes
  pub command : Bytes

pub data PsError : Type 0 where
  pid_file_not_found process_not_running : PsError
  -- With the text that is no number.
  invalid_pid : Bytes → PsError

-- `PSInfo`. There is an error where the field `Error` is not empty.
pub record PsInfo : Type 0 where
  pub vmid : ℕ
  pub pid : ℕ
  pub hook_status : Bytes
  pub cores : ℤ
  pub sockets : ℤ
  pub numa : Bool
  pub affinity : Bytes
  pub threads : List PsRow
  pub children : List PsRow
  pub failure : Option PsError

-- The programs that the command runs.
pub data PsCommand : Type 0 where
  read_config check_process read_affinity list_threads find_children : ℕ → PsCommand
  list_children : Bytes → PsCommand

abbrev ps : Bytes
ps = codes "/usr/bin/ps"

-- The program and its arguments.
unfoldable pub ps_command_line : PsCommand → List Bytes
ps_command_line (read_config vmid) = qm ∷ codes "config" ∷ format_uint vmid ∷ []
ps_command_line (check_process pid) = ps ∷ codes "-p" ∷ format_uint pid ∷ []
ps_command_line (read_affinity pid) = codes "/usr/bin/taskset" ∷ codes "-cp" ∷ format_uint pid ∷ []
ps_command_line (list_threads pid) =
    ps ∷ codes "-L" ∷ codes "-p" ∷ format_uint pid ∷ codes "-o" ∷ codes "tid,psr,comm" ∷ []
ps_command_line (find_children pid) = codes "/usr/bin/pgrep" ∷ codes "-P" ∷ format_uint pid ∷ []
ps_command_line (list_children pids) =
    ps ∷ codes "-p" ∷ pids ∷ codes "-o" ∷ codes "pid,psr,comm" ∷ []

abbrev pub PsLog : Type 0
PsLog = List (PsCommand × Reply)

-- What a program answers after a log.
abbrev pub PsExecutor : Type 0
PsExecutor = PsLog → PsCommand → Reply

unfoldable pub ps_run : PsExecutor → PsCommand → PsLog → Reply × PsLog
ps_run exec c log = let reply = exec log c in (reply, (c, reply) ∷ log)
