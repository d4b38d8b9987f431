-- ===== src/Cli/Ps/Rows.antt =====
-- What the command shows of each VM.
use proxmox_cpu_affinity.Base.{
  ℕ, Bool, true, false, [], ◌∷◌, Option, none, some, Option-cases, Bytes, trim_space, parse_uint,
  if_elim, ◌≡◌, refl, inl, inr, split,
}
use proxmox_cpu_affinity.Cli.Ps.Types.{
  PsInfo, read_config, check_process, read_affinity, PsLog, PsExecutor, ps_run, pid_file_not_found,
  invalid_pid, process_not_running,
}
use proxmox_cpu_affinity.Cli.Ps.Settings.{default_settings, Settings, read_lines}
use proxmox_cpu_affinity.Cli.Ps.Process.{
  add_details, found_process, get_vm_process_info, only_failed, affinity_of, when,
}

module _ (exec : PsExecutor) (pid_reader : ℕ → Option Bytes) (vmid : ℕ) (verbose explicit : Bool)
    (log : PsLog) where
  -- The number in the pid file.
  abbrev pub IsPidOf : ℕ → Type 0
  IsPidOf pid =
      (text : Bytes) × (pid_reader vmid ≡ some text) × (parse_uint (trim_space text) ≡ some pid)

  -- The log once the configuration was read, and once the process was looked for.
  abbrev pub config_log : PsLog
  config_log = (read_config vmid, exec log (read_config vmid)) ∷ log

  abbrev pub check_log : ℕ → PsLog
  check_log pid = (check_process pid, exec config_log (check_process pid)) ∷ config_log

  abbrev pub settings_read : Settings
  settings_read = read_lines (split b'\n' (exec log (read_config vmid)).output) default_settings

  abbrev pub IsConfigured : ℕ → PsInfo → Type 0
  IsConfigured pid i =
      (i.vmid ≡ vmid)
      × (i.pid ≡ pid)
      × (i.hook_status ≡ settings_read.hook_status)
      × (i.cores ≡ settings_read.cores)
      × (i.sockets ≡ settings_read.sockets)
      × (i.numa ≡ settings_read.numa)

  -- What is shown of the VM, on each branch.
  pub data Shown : Option PsInfo → Type 0 where
    no_file : pid_reader vmid ≡ none → Shown (when explicit (only_failed vmid pid_file_not_found))
    no_number :
        (text : Bytes)
        → pid_reader vmid ≡ some text
        → parse_uint (trim_space text) ≡ none
        → Shown (when explicit (only_failed vmid (invalid_pid (trim_space text))))
    gone :
        (pid : ℕ) (i : PsInfo)
        → IsPidOf pid
        → (exec config_log (check_process pid)).failed ≡ true
        → IsConfigured pid i
        → i.failure ≡ some process_not_running
        → Shown (when explicit i)
    alive :
        (pid : ℕ) (i : PsInfo)
        → IsPidOf pid
        → (exec config_log (check_process pid)).failed ≡ false
        → IsConfigured pid i
        → i.failure ≡ none
        → i.affinity ≡ affinity_of (exec (check_log pid) (read_affinity pid)).output
        → (verbose ≡ false → (i.threads ≡ []) × (i.children ≡ []))
        → Shown (some i)

  found_process-Shown :
      (i : PsInfo)
      → IsPidOf i.pid
      → IsConfigured i.pid i
      → i.failure ≡ none
      → (i.threads ≡ []) × (i.children ≡ [])
      → Shown (found_process exec verbose explicit i config_log).0
  unfolding found_process ps_run add_details
  found_process-Shown i p c fine bare =
      if_elim {A = Option PsInfo × PsLog} (λ r. Shown r.0)
        (exec config_log (check_process i.pid)).failed
        (λ d. gone i.pid (record i { failure = some process_not_running }) p d c refl)
        λ d.
          if_elim {A = Option PsInfo × PsLog} (λ r. Shown r.0) verbose
            (λ v. alive i.pid _ p d c fine refl (λ w. cc))
            (λ v. alive i.pid _ p d c fine refl (λ w. bare))

  -- `getVMProcessInfo` shows a VM as running, with the process id of its pid file, the settings of its
  -- configuration and the affinity that taskset prints, exactly where that process exists; without
  -- details it shows no threads and no children. Otherwise it shows the error that fits if the VM was
  -- asked for, and nothing if it was not.
  pub get_vm_process_info-Shown :
      Shown (get_vm_process_info exec pid_reader vmid verbose explicit log).0
  unfolding get_vm_process_info ps_run
  get_vm_process_info-Shown = elim (Option-cases (pid_reader vmid)) [
    | inl q ↦ rw (q, get_vm_process_info) (no_file q)
    | inr (text, q) ↦ elim (Option-cases (parse_uint (trim_space text))) [
      | inl r ↦ rw (q, r, get_vm_process_info) (no_number text q r)
      | inr (pid, r) ↦
          rw (q, r, get_vm_process_info)
            (found_process-Shown _ (text, q, r) (refl, refl, refl, refl, refl, refl) refl
              (refl, refl))
    ]
  ]
