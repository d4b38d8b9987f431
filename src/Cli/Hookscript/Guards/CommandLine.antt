-- ===== src/Cli/Hookscript/Guards/CommandLine.antt =====
-- The command lines of `hookscript`, cmd/cli/hookscript.go: none makes the program panic, and none
-- changes a VM but under the conditions.
use proxmox_cpu_affinity.Base.{
  ℕ, Bool, true, false, if_elim, not, List, [], ◌∷◌, Option, Bytes, SliceSort, ◌≡◌, ◌≢◌, refl,
}
use proxmox_cpu_affinity.Cli.Session.{
  qm_config, Session, Executor, run, say, is_numeric, number_or_zero,
}
use proxmox_cpu_affinity.Cli.Hookscript.{get_vm_ids_from_qm_list}
use proxmox_cpu_affinity.Cli.Hookscript.Arguments.{
  Cobra, Subcommand, list_cmd, hookscript_status_cmd, enable_cmd, disable_cmd, enable_all_cmd,
  disable_all_cmd, Flags, Ending, panicked, vmid_error, counted, arguments_error, show_vms,
  list_vms, status_of_vm, storage_of, run_subcommand, unless_error, hookscript,
}
use proxmox_cpu_affinity.Cli.Hookscript.Guards.{of_list, of_config, IsGuarded, told, queried}
use proxmox_cpu_affinity.Cli.Hookscript.Guards.Commands.{
  enable_one, disable_one, enable_all, disable_all, run_change, run_change-IsGuarded,
  print_vm_list-IsGuarded,
}

module _ (dry_run : Bool) where
  abbrev IsGood : Ending × Session → Type 0
  IsGood r = (r.0 ≢ panicked) × IsGuarded dry_run r.1.ha_cache r.1.log

  -- Where the number of the arguments is wrong, the command does not run.
  unless_error-counted :
      (fits : Bool) (args : List Bytes) (error : Option Ending) (r : Ending × Session) (s : Session)
      → IsGuarded dry_run s.ha_cache s.log
      → (fits ≡ true → IsGood (unless_error error r s))
      → IsGood (unless_error (counted fits args error) r s)
  unfolding unless_error counted
  unless_error-counted true args error r s g h = h refl
  unless_error-counted false args error r s g h = (λ e. cc, g)

  unless_error-vmid :
      (vmid : Bytes) (args : List Bytes) (r : Ending × Session) (s : Session)
      → IsGuarded dry_run s.ha_cache s.log
      → IsGood r
      → IsGood (unless_error (vmid_error (vmid ∷ args)) r s)
  unfolding unless_error vmid_error
  unless_error-vmid vmid args r s g h =
      if_elim {A = Option Ending} (λ error. IsGood (unless_error error r s)) (not (is_numeric vmid))
        (λ e. (λ e. cc, g)) (λ e. h)

  -- A command that wants a VM first runs only where there is one.
  unless_error-IsGood :
      (fits : List Bytes → Bool)
      → fits [] ≡ false
      → (run : List Bytes → Ending × Session) (s : Session) → IsGuarded dry_run s.ha_cache s.log
      → ((vmid : Bytes) (args : List Bytes) → IsGood (run (vmid ∷ args)))
      → (args : List Bytes)
      → IsGood (unless_error (counted (fits args) args (vmid_error args)) (run args) s)
  unless_error-IsGood fits h run s g good [] =
      unless_error-counted (fits []) [] _ (run []) s g λ e. cc
  unless_error-IsGood fits h run s g good (vmid ∷ args) =
      unless_error-counted (fits (vmid ∷ args)) (vmid ∷ args) _ (run (vmid ∷ args)) s g
        λ e. unless_error-vmid vmid args (run (vmid ∷ args)) s g (good vmid args)

  show_vms-IsGood :
      (exec : Executor) (json_output : Bool) (vmids : List ℕ) (s : Session)
      → IsGuarded dry_run s.ha_cache s.log
      → IsGood (show_vms exec json_output vmids s)
  unfolding show_vms
  show_vms-IsGood exec json_output vmids s g =
      (λ e. cc, (print_vm_list-IsGuarded dry_run exec vmids s g).1)

  list_vms-IsGood :
      (sorting : SliceSort ℕ) (exec : Executor) (json_output : Bool) (s : Session)
      → IsGuarded dry_run s.ha_cache s.log
      → IsGood (list_vms sorting exec json_output s)
  unfolding list_vms get_vm_ids_from_qm_list run
  list_vms-IsGood sorting exec json_output s g =
      show_vms-IsGood exec json_output _ _ (queried _ of_list g)

  status_of_vm-IsGood :
      (exec : Executor) (json_output : Bool) (vmid : ℕ) (s : Session)
      → IsGuarded dry_run s.ha_cache s.log
      → IsGood (status_of_vm exec json_output vmid s)
  unfolding status_of_vm run say
  status_of_vm-IsGood exec json_output vmid s g =
      let read = queried (exec s.log (qm_config vmid)) (of_config vmid) g in
      if_elim IsGood (exec s.log (qm_config vmid)).failed (λ e. (λ e. cc, told _ read))
        λ e. show_vms-IsGood exec json_output (vmid ∷ []) _ read

-- No list of arguments makes a command of `hookscript` read an argument that is not there, where
-- cobra counts as it documents. And whatever the arguments are and the programs answer, a hook is
-- set or deleted only for a VM that HA does not manage, right after a look at the VM's configuration
-- that showed no affinity as far as it could be read, and never in a dry run: a log in which this
-- held so far is one in which it holds.
pub hookscript-IsGood :
    (cobra : Cobra) (sorting : SliceSort ℕ) (exec : Executor) (flags : Flags) (command : Subcommand)
    (args : List Bytes) (s : Session)
    → IsGuarded flags.dry_run s.ha_cache s.log
    → ((hookscript cobra sorting exec flags command args s).0 ≢ panicked)
      × IsGuarded flags.dry_run
          (hookscript cobra sorting exec flags command args s).1.ha_cache
          (hookscript cobra sorting exec flags command args s).1.log
unfolding hookscript arguments_error run_subcommand unless_error run_change
hookscript-IsGood cobra sorting exec flags list_cmd args s g =
    list_vms-IsGood flags.dry_run sorting exec flags.json_output s g
hookscript-IsGood cobra sorting exec flags hookscript_status_cmd args s g =
    unless_error-IsGood flags.dry_run (cobra.exact_args 1) (cobra.exact_args_lem 1 [])
      (λ args. run_subcommand sorting exec flags hookscript_status_cmd args s) s g
      (λ vmid args.
        status_of_vm-IsGood flags.dry_run exec flags.json_output (number_or_zero vmid) s g)
      args
hookscript-IsGood cobra sorting exec flags enable_cmd args s g =
    unless_error-IsGood flags.dry_run (cobra.range_args 1 2) (cobra.range_args_lem 1 2 [])
      (λ args. run_subcommand sorting exec flags enable_cmd args s) s g
      (λ vmid args. (
        λ e. cc,
        run_change-IsGuarded sorting exec flags.dry_run
            (enable_one (number_or_zero vmid) (storage_of args) flags.force) s g,
      ))
      args
hookscript-IsGood cobra sorting exec flags disable_cmd args s g =
    unless_error-IsGood flags.dry_run (cobra.exact_args 1) (cobra.exact_args_lem 1 [])
      (λ args. run_subcommand sorting exec flags disable_cmd args s) s g
      (λ vmid args. (
        λ e. cc,
        run_change-IsGuarded sorting exec flags.dry_run (disable_one (number_or_zero vmid)) s g,
      ))
      args
hookscript-IsGood cobra sorting exec flags enable_all_cmd args s g =
    unless_error-counted flags.dry_run (cobra.maximum_n_args 1 args) args _ _ s g λ e. (
      λ e. cc,
      run_change-IsGuarded sorting exec flags.dry_run (enable_all (storage_of args) flags.force) s
          g,
    )
hookscript-IsGood cobra sorting exec flags disable_all_cmd args s g =
    (λ e. cc, run_change-IsGuarded sorting exec flags.dry_run disable_all s g)
