-- ===== src/Examples/Commands.antt =====
-- Runs of the hook and of the commands of the CLI.
use proxmox_cpu_affinity.Base.{
  ℕ, ◌==◌, ltb, leb, length, ◌&&◌, pos, true, false, List, [], ◌∷◌, ◌++◌, none, Bytes, codes,
  contains, format_uint, if◌then◌else◌, ◌==ᵇ◌, ◌≡◌, ◌≢◌, ◌⊎◌, refl, insertion,
}
use proxmox_cpu_affinity.Config.{Config, load}
use proxmox_cpu_affinity.Hook.{
  Attempt, call_service, dial_failed, answered, main, left, help_requested, bad_flag, parse_flags,
}
use proxmox_cpu_affinity.Hook.Retry.{CallEnd, call_service-CallEnd}
use proxmox_cpu_affinity.Hook.Phases.{IsCall, main-IsCall}
use proxmox_cpu_affinity.Cli.Session.{Command, qm_list, ha_config, qm_config, Session, Executor}
use proxmox_cpu_affinity.Cli.Hookscript.{
  is_ha_vm, process_config, disable_hook, vm_status, is_enabled,
}
use proxmox_cpu_affinity.Cli.Hookscript.Guards.{IsGuarded, nothing}
use proxmox_cpu_affinity.Cli.Hookscript.Guards.CommandLine.{hookscript-IsGood}
use proxmox_cpu_affinity.Cli.Hookscript.Arguments.{
  Cobra, Flags, Ending, panicked, wrong_count, enable_all_cmd, hookscript_status_cmd, hookscript,
  arguments_error, counted, unless_error,
}
use proxmox_cpu_affinity.Cli.Hookscript.Listing.{
  commands, process_config-vm_status, is_ha_vm-prefix,
}

-- The configuration of an environment without variables, on a machine with three CPUs.
abbrev config : Config
config = load (λ key. none) 3

-- The service cannot be reached twice, then it answers.
abbrev outcomes : ℕ → Attempt
outcomes i = if ltb i 2 then dial_failed else answered (codes "ok") []

call_service-CallEnd_example :
    CallEnd config
      (codes "ping")
      (pos 100)
      outcomes
      10
      (call_service config (codes "ping") (pos 100) outcomes)
unfolding load
call_service-CallEnd_example = call_service-CallEnd config (codes "ping") (pos 100) outcomes 10 refl

abbrev call_args : List Bytes
call_args = codes "100" ∷ codes "pre-start" ∷ []

main-IsCall_example :
    ((rest : List Bytes) × (parse_flags call_args ≡ left rest)
      × IsCall rest
      × ((main true call_args config outcomes).0 ≡ 0))
    ⊎ ((rest : List Bytes) × (parse_flags call_args ≡ left rest)
        × (¬ IsCall rest)
        × (main true call_args config outcomes ≡ (1, [])))
    ⊎ ((parse_flags call_args ≡ help_requested) × (main true call_args config outcomes ≡ (0, [])))
    ⊎ ((parse_flags call_args ≡ bad_flag) × (main true call_args config outcomes ≡ (2, [])))
main-IsCall_example = main-IsCall call_args config outcomes

-- Help, a negative VM id, and the end of the flags.
flags_test :
    (parse_flags (codes "-h" ∷ []) ≡ help_requested)
    × (parse_flags (codes "--help=x" ∷ []) ≡ help_requested)
    × (parse_flags (codes "-5" ∷ codes "pre-start" ∷ []) ≡ bad_flag)
    × (parse_flags (codes "--" ∷ codes "-5" ∷ []) ≡ left (codes "-5" ∷ []))
    × (parse_flags (codes "-" ∷ []) ≡ left (codes "-" ∷ []))
    × (parse_flags call_args ≡ left call_args)
unfolding parse_flags ◌==ᵇ◌
flags_test = (refl, refl, refl, refl, refl, refl)

-- Three VMs: 10 has no hook, 101 is managed by HA, and 102 has an affinity of its own.
abbrev answers : Command → Bytes
answers qm_list = codes "VMID NAME\n102 c\n10 a\n101 b\n"
answers ha_config = codes "vm: 101\n"
answers (qm_config vmid) = if vmid == 102 then codes "affinity: 0-3\n" else codes "cores: 2\n"
answers _ = []

abbrev executor : Executor
executor log c = record { output = answers c; failed = false }

abbrev fresh : Session
fresh = record { log = []; ha_cache = none }

-- Counting as cobra documents it.
abbrev counting : Cobra
counting = record {
  exact_args = λ n args. length args == n;
  range_args = λ lo hi args. leb lo (length args) && leb (length args) hi;
  maximum_n_args = λ n args. leb (length args) n;
  exact_args_lem = λ n args. refl;
  range_args_lem = λ lo hi args. refl;
  maximum_n_args_lem = λ n args. refl;
}

abbrev forced : Flags
forced = record { json_output = false; dry_run = false; force = true }

abbrev enabling_all : Ending × Session
enabling_all =
    hookscript counting insertion executor forced enable_all_cmd (codes "local" ∷ []) fresh

hookscript-IsGood_example :
    (enabling_all.0 ≢ panicked) × IsGuarded false enabling_all.1.ha_cache enabling_all.1.log
hookscript-IsGood_example =
    hookscript-IsGood counting insertion executor forced enable_all_cmd (codes "local" ∷ []) fresh
      nothing

-- Without arguments `hookscript status` is refused.
hookscript_test :
    hookscript counting insertion executor forced hookscript_status_cmd [] fresh
    ≡ (wrong_count 0, fresh)
unfolding hookscript arguments_error counted unless_error
hookscript_test = refl

abbrev hooked : Bytes
hooked = codes "cores: 2\nhookscript: local:snippets/proxmox-cpu-affinity-hook\n"

process_config-vm_status_example :
    ((contains hooked (codes "template: 1") ≡ true)
      × (commands (process_config executor false [] false false 10 hooked fresh).log ≡ []))
    ⊎ ((contains hooked (codes "template: 1") ≡ false)
        × ((vm_status 10 hooked false).status ≡ is_enabled)
        × (process_config executor false [] false false 10 hooked fresh
            ≡ disable_hook executor 10 false fresh))
    ⊎ ((contains hooked (codes "template: 1") ≡ false)
        × ((vm_status 10 hooked false).status ≢ is_enabled)
        × (commands (process_config executor false [] false false 10 hooked fresh).log ≡ []))
unfolding commands
process_config-vm_status_example = process_config-vm_status executor 10 hooked false fresh

managed_test : (is_ha_vm executor 101 fresh).0 ≡ true
unfolding is_ha_vm contains format_uint
managed_test = refl

-- VM 10 counts as managed since VM 101 is.
is_ha_vm-prefix_example : (is_ha_vm executor 10 fresh).0 ≡ true
is_ha_vm-prefix_example = is_ha_vm-prefix executor 10 101 (codes "1") fresh prefix managed_test
  where
    prefix : format_uint 101 ≡ format_uint 10 ++ codes "1"
    prefix = unfold format_uint in refl
