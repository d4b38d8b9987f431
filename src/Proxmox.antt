-- ===== src/Proxmox.antt =====
-- pkg/proxmox/proxmox.go: the configuration and the process id of a VM. What `pvesh` prints, what
-- the JSON decoder makes of it, the pid file and the process table are parameters.
pub mod Queries
use proxmox_cpu_affinity.Base.{
  ℕ, ℤ, pos, negsuc, ◌==ℤ◌, Bool, not, if◌then◌else◌, List, [], ◌∷◌, ◌++◌, Option, none, some,
  Bytes, codes, split, itoa, atoi, trim_space, Result, ok, err, ◌>>=◌,
}

pub record VmConfig : Type 0 where
  pub cores : ℤ
  pub sockets : ℤ
  pub affinity : Bytes
  pub hook_script : Bytes

pub data ProxmoxError : Type 0 where
  pvesh_failed config_unreadable pid_file_unreadable pid_not_a_number : ProxmoxError

-- The result of reading a file.
pub data FileContent : Type 0 where
  missing unreadable : FileContent
  content : Bytes → FileContent

pub record Host : Type 0 where
  pub hostname : Bytes
  -- `Output` of a command and its arguments.
  pub output : List Bytes → Option Bytes
  -- `json.Unmarshal` into a `VmConfig`, whose fields start as zero.
  pub unmarshal : Bytes → Option VmConfig
  pub read_file : Bytes → FileContent
  pub process_exists : ℤ → Bool

-- What stands before the first dot of the host name.
first_part : List Bytes → Bytes
first_part [] = []
first_part (part ∷ parts) = part

pub node_name : Host → Bytes
unfolding first_part
node_name h = first_part (split b'.' h.hostname)

pub config_command : Host → ℤ → List Bytes
unfolding node_name
config_command h vmid =
    codes "/usr/bin/pvesh"
    ∷ codes "get"
    ∷ (codes "/nodes/" ++ (node_name h ++ (codes "/qemu/" ++ (itoa vmid ++ codes "/config"))))
    ∷ codes "--output-format"
    ∷ codes "json-pretty"
    ∷ []

-- A field that is 0 counts as 1.
at_least_one : ℤ → ℤ
at_least_one n = if n ==ℤ pos 0 then pos 1 else n

or_fail {ℓ} : {A : Type ℓ} → Option A → ProxmoxError → Result ProxmoxError A
or_fail none e = err e
or_fail (some a) e = ok a

unfoldable pub get_vm_config : Host → ℤ → Result ProxmoxError VmConfig
unfolding or_fail at_least_one
get_vm_config h vmid = do
  out ← or_fail (h.output (config_command h vmid)) pvesh_failed
  config ← or_fail (h.unmarshal out) config_unreadable
  ok (record config { cores = at_least_one config.cores; sockets = at_least_one config.sockets })

unfoldable pub pid_path : ℤ → Bytes
pid_path vmid = codes "/var/run/qemu-server/" ++ (itoa vmid ++ codes ".pid")

-- `-1`: the VM is not running.
running_pid : Host → ℤ → ℤ
running_pid h pid = if not (h.process_exists pid) then negsuc 0 else pid

unfoldable pub get_vm_pid : Host → ℤ → Result ProxmoxError ℤ
unfolding or_fail running_pid
get_vm_pid h vmid = elim (h.read_file (pid_path vmid)) [
  | missing ↦ ok (negsuc 0)
  | unreadable ↦ err pid_file_unreadable
  | content text ↦ do
    pid ← or_fail (atoi (trim_space text)) pid_not_a_number
    ok (running_pid h pid)
]
