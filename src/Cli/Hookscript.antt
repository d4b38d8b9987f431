-- ===== src/Cli/Hookscript.antt =====
-- cmd/cli/hookscript.go: the commands `hookscript enable`, `disable`, `enable-all`, `disable-all`
-- and the list of the VMs.
pub mod Arguments
pub mod Guards
pub mod Listing
use proxmox_cpu_affinity.Base.{
  ℕ, ltb, Bool, true, false, not, ◌&&◌, ◌==ᵇ◌, if◌then◌else◌, List, [], ◌∷◌, ◌++◌, Option, none,
  some, Bytes, codes, contains, split, fields, format_uint, parse_uint, SliceSort, Result, ok, err,
}
use proxmox_cpu_affinity.Cli.Session.{
  qm_list, ha_config, storage_status, qm_config, set_hook, delete_hook, StorageError, status_failed,
  not_found, not_active, Message, invalid_storage, would_enable, would_disable, enabling, disabling,
  enable_failed, disable_failed, skipped_ha, skipped_template, skipped_affinity, skipped_hook,
  refused_ha, refused_affinity, storage_error, storage_warning, Session, Executor, run, say,
  hook_name, get_hook_path, is_valid_storage, get_vm_config_output, is_hook_enabled,
}

-- The first field of a line, where it is a number.
line_id : List Bytes → Option ℕ
line_id [] = none
line_id (word ∷ words) = parse_uint word

ids_of : List Bytes → List ℕ
unfolding line_id
ids_of [] = []
ids_of (line ∷ lines) = elim (line_id (fields line)) [
  | none ↦ ids_of lines
  | some id ↦ id ∷ ids_of lines
]

unfoldable pub get_vm_ids_from_qm_list : SliceSort ℕ → Executor → Session → List ℕ × Session
unfolding ids_of run
get_vm_ids_from_qm_list sorting exec s =
    let (reply, s1) = run exec qm_list s in
    (sorting.sort ltb (ids_of (split b'\n' reply.output)), s1)

pub ha_key : ℕ → Bytes
ha_key vmid = codes "vm: " ++ format_uint vmid

-- The HA configuration is read once; an error counts as what the program printed.
unfoldable pub is_ha_vm : Executor → ℕ → Session → Bool × Session
unfolding ha_key run
is_ha_vm exec vmid s = elim s.ha_cache [
  | some text ↦ (contains text (ha_key vmid), s)
  | none ↦
      let (reply, s1) = run exec ha_config s in
      (contains reply.output (ha_key vmid), record s1 { ha_cache = some reply.output })
]

unfoldable pub has_affinity_set : Executor → ℕ → Session → Bool × Session
unfolding run
has_affinity_set exec vmid s =
    let (reply, s1) = run exec (qm_config vmid) s in (contains reply.output (codes "affinity:"), s1)

-- The message about a program that failed.
complain : Message → Bool → Session → Session
unfolding say
complain m failed s = if failed then say m s else s

unfoldable pub enable_hook : Executor → ℕ → Bytes → Bool → Session → Session
unfolding run say complain is_valid_storage
enable_hook exec vmid storage dry_run s =
    if not (is_valid_storage storage)
    then say (invalid_storage storage) s
    else if dry_run
    then say (would_enable vmid (get_hook_path storage)) s
    else let (reply, s1) =
        run exec (set_hook vmid (get_hook_path storage)) (say (enabling vmid storage) s) in
      complain (enable_failed vmid) reply.failed s1

unfoldable pub disable_hook : Executor → ℕ → Bool → Session → Session
unfolding run say complain
disable_hook exec vmid dry_run s =
    if dry_run
    then say (would_disable vmid) s
    else let (reply, s1) = run exec (delete_hook vmid) (say (disabling vmid) s) in
      complain (disable_failed vmid) reply.failed s1

-- `updateVMHook`.
unfoldable pub update_vm_hook : Executor → ℕ → Bool → Bytes → Bool → Session → Session
unfolding enable_hook disable_hook
update_vm_hook exec vmid enable storage dry_run s =
    if enable then enable_hook exec vmid storage dry_run s else disable_hook exec vmid dry_run s

-- One round of `processAllVMs`, once the VM's configuration is read.
unfoldable pub process_config :
    Executor → Bool → Bytes → Bool → Bool → ℕ → Bytes → Session → Session
unfolding say update_vm_hook is_hook_enabled
process_config exec enable storage force dry_run vmid config s =
    if contains config (codes "template: 1")
    then say (skipped_template vmid) s
    else if contains config (codes "affinity:")
    then say (skipped_affinity vmid) s
    else if enable
    then if contains config (codes "hookscript:") && (not (contains config hook_name) && not force)
      then say (skipped_hook vmid) s
      else update_vm_hook exec vmid true storage dry_run s
    else if not (is_hook_enabled config)
    then s
    else update_vm_hook exec vmid false [] dry_run s

unfoldable pub process_vm : Executor → Bool → Bytes → Bool → Bool → ℕ → Session → Session
unfolding is_ha_vm get_vm_config_output process_config say
process_vm exec enable storage force dry_run vmid s =
    let (managed, s1) = is_ha_vm exec vmid s in
    let (config, s2) = get_vm_config_output exec vmid s1 in
    if managed
    then say (skipped_ha vmid) s1
    else process_config exec enable storage force dry_run vmid config s2

process_vms : Executor → Bool → Bytes → Bool → Bool → List ℕ → Session → Session
unfolding process_vm
process_vms exec enable storage force dry_run [] s = s
process_vms exec enable storage force dry_run (vmid ∷ vmids) s =
    process_vms exec enable storage force dry_run vmids
      (process_vm exec enable storage force dry_run vmid s)

pub process_all_vms : SliceSort ℕ → Executor → Bool → Bytes → Bool → Bool → Session → Session
unfolding process_vms get_vm_ids_from_qm_list
process_all_vms sorting exec enable storage force dry_run s =
    let (vmids, s1) = get_vm_ids_from_qm_list sorting exec s in
    process_vms exec enable storage force dry_run vmids s1

-- What one line says of the storage, where it names it.
storage_line : Bytes → List Bytes → Option (Result StorageError (Unit {0}))
storage_line name [] = none
storage_line name (a ∷ []) = none
storage_line name (a ∷ b ∷ []) = none
storage_line name (a ∷ b ∷ status ∷ rest) =
    if a ==ᵇ name
    then some (if status ==ᵇ codes "active" then ok tt else err (not_active status))
    else none

find_storage : Bytes → List Bytes → Result StorageError (Unit {0})
unfolding storage_line
find_storage name [] = err not_found
find_storage name (line ∷ lines) = elim (storage_line name (fields line)) [
  | none ↦ find_storage name lines
  | some r ↦ r
]

unfoldable pub check_storage : Executor → Bytes → Session → Result StorageError (Unit {0}) × Session
unfolding find_storage run
check_storage exec name s =
    let (reply, s1) = run exec storage_status s in
    (if reply.failed then err status_failed else find_storage name (split b'\n' reply.output), s1)

-- The checks of `enable` and `disable` before they change a VM: 1 is the exit status.
pub guarded : Executor → ℕ → (Session → Session) → Session → ℕ × Session
unfolding is_ha_vm has_affinity_set say
guarded exec vmid change s =
    let (managed, s1) = is_ha_vm exec vmid s in
    let (manual, s2) = has_affinity_set exec vmid s1 in
    if managed
    then (1, say (refused_ha vmid) s1)
    else if manual
    then (1, say (refused_affinity vmid) s2)
    else (0, change s2)

-- The storage check of `enable` and `enable-all`.
pub with_storage : Executor → Bytes → Bool → (Session → ℕ × Session) → Session → ℕ × Session
unfolding check_storage say
with_storage exec storage force rest s =
    let (r, s1) = check_storage exec storage s in
    elim r [
      | ok u ↦ rest s1
      | err e ↦
          if not force then (1, say (storage_error e) s1) else rest (say (storage_warning e) s1)
    ]

pub enable_command : Executor → ℕ → Bytes → Bool → Bool → Session → ℕ × Session
unfolding guarded with_storage update_vm_hook
enable_command exec vmid storage force dry_run =
    with_storage exec storage force
      (guarded exec vmid (update_vm_hook exec vmid true storage dry_run))

pub disable_command : Executor → ℕ → Bool → Session → ℕ × Session
unfolding guarded update_vm_hook
disable_command exec vmid dry_run = guarded exec vmid (update_vm_hook exec vmid false [] dry_run)

pub enable_all_command : SliceSort ℕ → Executor → Bytes → Bool → Bool → Session → ℕ × Session
unfolding with_storage process_all_vms
enable_all_command sorting exec storage force dry_run =
    with_storage exec storage force
      λ s. (0, process_all_vms sorting exec true storage force dry_run s)

pub disable_all_command : SliceSort ℕ → Executor → Bool → Session → ℕ × Session
unfolding process_all_vms
disable_all_command sorting exec dry_run s =
    (0, process_all_vms sorting exec false [] false dry_run s)

pub data Status : Type 0 where
  is_disabled is_skipped is_enabled : Status

-- `HookStatusInfo`; the notes before they are joined by ", ".
pub record HookStatusInfo : Type 0 where
  pub vmid : ℕ
  pub status : Status
  pub notes : List Bytes

template_notes : Bytes → List Bytes
template_notes config =
    if contains config (codes "template: 1") then codes "VM Template" ∷ [] else []

-- What `printVMList` makes of a configuration and of what HA says.
pub vm_status : ℕ → Bytes → Bool → HookStatusInfo
unfolding template_notes is_hook_enabled
vm_status vmid config managed =
    if managed
    then record {
      vmid = vmid;
      status = is_skipped;
      notes = template_notes config ++ codes "HA Managed" ∷ [];
    }
    else if contains config (codes "affinity:")
    then record {
      vmid = vmid;
      status = is_skipped;
      notes = template_notes config ++ codes "Manual Affinity Set" ∷ [];
    }
    else if contains config (codes "hookscript: ") && contains config hook_name
    then record { vmid = vmid; status = is_enabled; notes = template_notes config }
    else record { vmid = vmid; status = is_disabled; notes = template_notes config }

-- The rows that `printVMList` prints.
pub print_vm_list : Executor → List ℕ → Session → List HookStatusInfo × Session
unfolding get_vm_config_output is_ha_vm vm_status
print_vm_list exec [] s = ([], s)
print_vm_list exec (vmid ∷ vmids) s =
    let (config, s1) = get_vm_config_output exec vmid s in
    let (managed, s2) = is_ha_vm exec vmid s1 in
    let (rows, s3) = print_vm_list exec vmids s2 in (vm_status vmid config managed ∷ rows, s3)
