-- ===== src/Cli/Reassign.antt =====
-- cmd/cli/reassign.go: the command that asks the service to place running VMs anew, and the list of
-- the running VMs of cmd/cli/helper.go.
pub mod Command
pub mod Results
use proxmox_cpu_affinity.Base.{
  ℕ, suc, ltb, ℤ, pos, wrap, Bool, false, not, ◌&&◌, ◌==ᵇ◌, if◌then◌else◌, List, [], ◌∷◌, ◌++◌,
  length, Option, none, some, Bytes, codes, contains, split, trim_space, parse_uint, trim_suffix,
  base_name, SliceSort,
}
use proxmox_cpu_affinity.Cli.Session.{
  qm_config, Session, Executor, run, is_hook_enabled, is_numeric,
}

pub data ReassignStatus : Type 0 where
  skipped_unreadable skipped_disabled would_reassign service_failed success : ReassignStatus
  refused : Bytes → ReassignStatus

pub record ReassignResult : Type 0 where
  pub vmid : ℕ
  pub status : ReassignStatus

-- What the loop changes; `requests` are the VMs that the service was asked to place, in turn.
pub record Progress : Type 0 where
  pub session : Session
  pub requests : List ℤ
  pub results : List ReassignResult

-- What `sendSocketRequest` brings back, for the number of requests made before and the VM: `none` for
-- an error, or the status and the error text of the response.
abbrev pub Placing : Type 0
Placing = ℕ → ℤ → Option (Bytes × Bytes)

status_of : Option (Bytes × Bytes) → ReassignStatus
status_of none = service_failed
status_of (some (status, text)) = if not (status ==ᵇ codes "ok") then refused text else success

finished : ℕ → ReassignStatus → Progress → Progress
finished vmid status p = record p {
  results = p.results ++ record { vmid = vmid; status = status } ∷ [];
}

-- `int(vmid)`.
abbrev pub to_int : ℕ → ℤ
to_int vmid = wrap (pos vmid)

request : Placing → ℕ → Progress → Progress
unfolding status_of finished
request service vmid p =
    finished vmid (status_of (service (length p.requests) (to_int vmid)))
      (record p { requests = p.requests ++ to_int vmid ∷ [] })

-- One round of the loop.
reassign_vm : Executor → Placing → Bool → ℕ → Progress → Progress
unfolding run is_hook_enabled finished request
reassign_vm exec service dry_run vmid p =
    let (reply, session) = run exec (qm_config vmid) p.session in
    let read = record p { session = session } in
    if reply.failed
    then finished vmid skipped_unreadable read
    else if not (is_hook_enabled reply.output)
    then finished vmid skipped_disabled read
    else if dry_run
    then finished vmid would_reassign read
    else request service vmid read

pub reassign_vms : Executor → Placing → Bool → List ℕ → Progress → Progress
unfolding reassign_vm
reassign_vms exec service dry_run [] p = p
reassign_vms exec service dry_run (vmid ∷ vmids) p =
    reassign_vms exec service dry_run vmids (reassign_vm exec service dry_run vmid p)

-- The arguments that the command takes.
arguments_fit : Bool → List Bytes → Bool
arguments_fit all [] = all
arguments_fit all (vmid ∷ []) = not all && is_numeric vmid
arguments_fit all (a ∷ b ∷ rest) = false

-- The numbers in the names of the pid files.
ids_in : List Bytes → List ℕ
ids_in [] = []
ids_in (file ∷ files) = elim (parse_uint (trim_suffix (codes ".pid") (base_name file))) [
  | none ↦ ids_in files
  | some id ↦ id ∷ ids_in files
]

-- `getAllRunningVMIDs`, for the pid files that the glob finds.
unfoldable pub get_all_running_vm_ids : SliceSort ℕ → List Bytes → List ℕ
unfolding ids_in
get_all_running_vm_ids sorting files = sorting.sort ltb (ids_in files)

-- The part of a line behind its first colon, up to the next.
model_of : List Bytes → Option Bytes
model_of [] = none
model_of (a ∷ []) = none
model_of (a ∷ b ∷ rest) = some (trim_space b)

model_in : List Bytes → Bytes
unfolding model_of
model_in [] = codes "Unknown CPU"
model_in (line ∷ lines) =
    let later = model_in lines in
    if contains line (codes "model name")
    then elim (model_of (split b':' line)) [ none ↦ later | some model ↦ model ]
    else later

-- `getCPUModelName`, for the content of /proc/cpuinfo, or `none` where it cannot be read.
get_cpu_model_name : Option Bytes → Bytes
unfolding model_in
get_cpu_model_name none = codes "Unknown CPU"
get_cpu_model_name (some content) = model_in (split b'\n' content)
