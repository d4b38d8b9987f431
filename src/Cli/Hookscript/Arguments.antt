-- ===== src/Cli/Hookscript/Arguments.antt =====
-- cmd/cli/hookscript.go: what the commands of `hookscript` make of their arguments, and the commands
-- `list` and `status`. The counting of the arguments is the library cobra's, a parameter with what
-- its documentation says.
use proxmox_cpu_affinity.Base.{
  ℕ, leb, ◌==◌, Bool, not, ◌&&◌, if◌then◌else◌, List, [], ◌∷◌, length, Option, none, some, Bytes,
  codes, SliceSort, ◌≡◌,
}
use proxmox_cpu_affinity.Cli.Session.{
  qm_config, vm_not_found, Session, Executor, run, say, is_numeric, number_or_zero,
}
use proxmox_cpu_affinity.Cli.Hookscript.{
  HookStatusInfo, get_vm_ids_from_qm_list, print_vm_list, enable_command, disable_command,
  enable_all_command, disable_all_command,
}

-- `cobra.ExactArgs`, `RangeArgs` and `MaximumNArgs`: true where they return no error.
pub record Cobra : Type 0 where
  pub exact_args : ℕ → List Bytes → Bool
  pub range_args : ℕ → ℕ → List Bytes → Bool
  pub maximum_n_args : ℕ → List Bytes → Bool
  pub exact_args_lem : (n : ℕ) (args : List Bytes) → exact_args n args ≡ (length args == n)
  pub range_args_lem :
      (lo hi : ℕ) (args : List Bytes)
      → range_args lo hi args ≡ (leb lo (length args) && leb (length args) hi)
  pub maximum_n_args_lem : (n : ℕ) (args : List Bytes) → maximum_n_args n args ≡ leb (length args) n

pub data Subcommand : Type 0 where
  list_cmd hookscript_status_cmd enable_cmd disable_cmd enable_all_cmd disable_all_cmd : Subcommand

-- The flags, false where a command does not have them.
pub record Flags : Type 0 where
  pub json_output : Bool
  pub dry_run : Bool
  pub force : Bool

-- How a command ends: cobra refuses the arguments, an index is out of range, the program exits with
-- a status, or the rows are printed, as JSON or as a table.
pub data Ending : Type 0 where
  wrong_count : ℕ → Ending
  invalid_vmid : Bytes → Ending
  panicked : Ending
  exited : ℕ → Ending
  listed : Bool → List HookStatusInfo → Ending

abbrev pub default_storage : Bytes
default_storage = codes "local"

-- The second half of `Args`: the first argument is a number.
unfoldable pub vmid_error : List Bytes → Option Ending
vmid_error [] = some panicked
vmid_error (vmid ∷ args) = if not (is_numeric vmid) then some (invalid_vmid vmid) else none

unfoldable pub counted : Bool → List Bytes → Option Ending → Option Ending
counted fits args rest = if not fits then some (wrong_count (length args)) else rest

-- `Args` of each command: what is wrong with the arguments.
unfoldable pub arguments_error : Cobra → Subcommand → List Bytes → Option Ending
unfolding counted vmid_error
arguments_error cobra list_cmd args = none
arguments_error cobra hookscript_status_cmd args =
    counted (cobra.exact_args 1 args) args (vmid_error args)
arguments_error cobra enable_cmd args = counted (cobra.range_args 1 2 args) args (vmid_error args)
arguments_error cobra disable_cmd args = counted (cobra.exact_args 1 args) args (vmid_error args)
arguments_error cobra enable_all_cmd args = counted (cobra.maximum_n_args 1 args) args none
arguments_error cobra disable_all_cmd args = none

abbrev pub exiting : ℕ × Session → Ending × Session
exiting (code, s) = (exited code, s)

-- `printVMList`, as a whole.
unfoldable pub show_vms : Executor → Bool → List ℕ → Session → Ending × Session
unfolding print_vm_list
show_vms exec json_output vmids s =
    let (rows, s1) = print_vm_list exec vmids s in (listed json_output rows, s1)

unfoldable pub list_vms : SliceSort ℕ → Executor → Bool → Session → Ending × Session
unfolding show_vms get_vm_ids_from_qm_list
list_vms sorting exec json_output s =
    let (vmids, s1) = get_vm_ids_from_qm_list sorting exec s in show_vms exec json_output vmids s1

unfoldable pub status_of_vm : Executor → Bool → ℕ → Session → Ending × Session
unfolding show_vms run say
status_of_vm exec json_output vmid s =
    let (reply, s1) = run exec (qm_config vmid) s in
    if reply.failed
    then (exited 1, say (vm_not_found vmid) s1)
    else show_vms exec json_output (vmid ∷ []) s1

-- The storage that an optional argument names.
unfoldable pub storage_of : List Bytes → Bytes
storage_of [] = default_storage
storage_of (storage ∷ args) = storage

-- `Run` of each command.
unfoldable pub run_subcommand :
    SliceSort ℕ → Executor → Flags → Subcommand → List Bytes → Session → Ending × Session
unfolding list_vms status_of_vm storage_of number_or_zero
run_subcommand sorting exec flags list_cmd args s = list_vms sorting exec flags.json_output s
run_subcommand sorting exec flags hookscript_status_cmd [] s = (panicked, s)
run_subcommand sorting exec flags hookscript_status_cmd (vmid ∷ args) s =
    status_of_vm exec flags.json_output (number_or_zero vmid) s
run_subcommand sorting exec flags enable_cmd [] s = (panicked, s)
run_subcommand sorting exec flags enable_cmd (vmid ∷ args) s =
    exiting
      (enable_command exec (number_or_zero vmid) (storage_of args) flags.force flags.dry_run s)
run_subcommand sorting exec flags disable_cmd [] s = (panicked, s)
run_subcommand sorting exec flags disable_cmd (vmid ∷ args) s =
    exiting (disable_command exec (number_or_zero vmid) flags.dry_run s)
run_subcommand sorting exec flags enable_all_cmd args s =
    exiting (enable_all_command sorting exec (storage_of args) flags.force flags.dry_run s)
run_subcommand sorting exec flags disable_all_cmd args s =
    exiting (disable_all_command sorting exec flags.dry_run s)

unfoldable pub unless_error : Option Ending → Ending × Session → Session → Ending × Session
unless_error (some error) r s = (error, s)
unless_error none r s = r

-- A command line of `hookscript`.
unfoldable pub hookscript :
    Cobra → SliceSort ℕ → Executor → Flags → Subcommand → List Bytes → Session → Ending × Session
unfolding arguments_error unless_error run_subcommand
hookscript cobra sorting exec flags command args s =
    unless_error (arguments_error cobra command args)
      (run_subcommand sorting exec flags command args s) s
