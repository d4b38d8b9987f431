-- ===== src/Cli/Session.antt =====
-- What a command of cmd/cli works with: the programs it runs, by the executor, the lines it prints,
-- and the cache of the HA configuration. The log holds the newest entry first. What a program
-- answers is a parameter, which may depend on all that happened before.
use proxmox_cpu_affinity.Base.{
  ℕ, Bool, true, false, ◌&&◌, ◌||◌, ◌==ᵇ◌, if◌then◌else◌, List, [], ◌∷◌, ◌++◌, Option, none, some,
  Bytes, codes, contains, format_uint, parse_uint, base_name,
}

-- The programs that the commands run.
pub data Command : Type 0 where
  qm_list ha_config storage_status : Command
  qm_config : ℕ → Command
  set_hook : ℕ → Bytes → Command
  delete_hook : ℕ → Command

abbrev pub qm : Bytes
qm = codes "/usr/sbin/qm"

-- The program and its arguments.
pub command_line : Command → List Bytes
command_line qm_list = qm ∷ codes "list" ∷ []
command_line ha_config = codes "/usr/sbin/ha-manager" ∷ codes "config" ∷ []
command_line storage_status = codes "/usr/bin/pvesh" ∷ codes "status" ∷ []
command_line (qm_config vmid) = qm ∷ codes "config" ∷ format_uint vmid ∷ []
command_line (set_hook vmid path) =
    qm ∷ codes "set" ∷ format_uint vmid ∷ codes "--hookscript" ∷ path ∷ []
command_line (delete_hook vmid) =
    qm ∷ codes "set" ∷ format_uint vmid ∷ codes "--delete" ∷ codes "hookscript" ∷ []

pub record Reply : Type 0 where
  pub output : Bytes
  pub failed : Bool

pub data StorageError : Type 0 where
  status_failed not_found : StorageError
  not_active : Bytes → StorageError

pub data Message : Type 0 where
  invalid_storage : Bytes → Message
  would_enable : ℕ → Bytes → Message
  would_disable : ℕ → Message
  enabling : ℕ → Bytes → Message
  disabling enable_failed disable_failed : ℕ → Message
  skipped_ha skipped_template skipped_affinity skipped_hook : ℕ → Message
  refused_ha refused_affinity : ℕ → Message
  storage_error storage_warning : StorageError → Message
  vm_not_found : ℕ → Message

pub data Entry : Type 0 where
  ran : Command → Reply → Entry
  printed : Message → Entry

pub record Session : Type 0 where
  pub log : List Entry
  -- `haConfigCache`, and `none` while `haConfigLoaded` is false.
  pub ha_cache : Option Bytes

-- What a program answers after a log.
abbrev pub Executor : Type 0
Executor = List Entry → Command → Reply

-- `exec.Output` and `exec.Run`.
unfoldable pub run : Executor → Command → Session → Reply × Session
run exec c s = let reply = exec s.log c in (reply, record s { log = ran c reply ∷ s.log })

unfoldable pub say : Message → Session → Session
say m s = record s { log = printed m ∷ s.log }

abbrev pub hook_name : Bytes
hook_name = codes "proxmox-cpu-affinity-hook"

pub get_hook_path : Bytes → Bytes
get_hook_path storage = storage ++ (codes ":snippets/" ++ hook_name)

unfoldable pub is_valid_storage : Bytes → Bool
is_valid_storage s =
    if s ==ᵇ [] || (s ==ᵇ codes "." || s ==ᵇ codes "..") then false else base_name s ==ᵇ s

unfoldable pub is_numeric : Bytes → Bool
is_numeric s = elim (parse_uint s) [ none ↦ false | some n ↦ true ]

-- `strconv.ParseUint`, its error dropped.
unfoldable pub number_or_zero : Bytes → ℕ
number_or_zero s = elim (parse_uint s) [ none ↦ 0 | some n ↦ n ]

-- The text of `qm config VMID`, and the empty text where it fails.
unfoldable pub get_vm_config_output : Executor → ℕ → Session → Bytes × Session
unfolding run
get_vm_config_output exec vmid s =
    let (reply, s1) = run exec (qm_config vmid) s in (if reply.failed then [] else reply.output, s1)

unfoldable pub is_hook_enabled : Bytes → Bool
unfolding contains
is_hook_enabled config = contains config (codes "hookscript: ") && contains config hook_name
