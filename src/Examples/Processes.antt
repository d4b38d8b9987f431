-- ===== src/Examples/Processes.antt =====
-- The command that shows processes, on a host where VM 100 runs with two child processes, and the
-- pid file of VM 101 is left over.
use mathlib.Core.List.{Sublistᴰ}
use proxmox_cpu_affinity.Base.{
  ℕ, ◌==◌, ltb, true, false, if◌then◌else◌, [], ◌∷◌, map, Option, none, some, Bytes, codes, fields,
  split, trim_space, atoi, join, contains, format_uint, pos, insertion, All, ◌≡◌, refl, ◌==ᵇ◌,
  arith,
}
use proxmox_cpu_affinity.Cli.Session.{Reply}
use proxmox_cpu_affinity.Cli.Ps.Types.{
  read_config, check_process, read_affinity, list_threads, find_children, list_children, PsExecutor,
}
use proxmox_cpu_affinity.Cli.Ps.Settings.{read_lines, default_settings}
use proxmox_cpu_affinity.Cli.Ps.Process.{
  get_vm_process_info, ps_results, valid_children, table_rows, affinity_of,
}
use proxmox_cpu_affinity.Cli.Ps.Children.{HarmlessLog, ps_results-HarmlessLog}
use proxmox_cpu_affinity.Cli.Ps.Rows.{Shown, get_vm_process_info-Shown}
use proxmox_cpu_affinity.Cli.Ps.Results.{ps_results-rows}

abbrev good : Bytes → Reply
good text = record { output = text; failed = false }

abbrev executor : PsExecutor
executor log (read_config vmid) = good (codes "cores: 4")
executor log (check_process pid) = record {
  output = [];
  failed = if pid == 4711 then false else true;
}
executor log (read_affinity pid) = good (codes "pid 4711's current affinity list: 0-3")
executor log (list_threads pid) = good []
executor log (find_children pid) = good (codes "4801")
executor log (list_children pids) = good []

abbrev pid_files : ℕ → Option Bytes
pid_files vmid =
    if vmid == 100 then some (codes "4711") else if vmid == 101 then some (codes "9") else none

settings_test :
    read_lines (codes "cores: 4" ∷ codes "numa: 1" ∷ codes "cores: x" ∷ []) default_settings
    ≡ record { hook_status = codes "Disabled"; cores = pos 4; sockets = pos 1; numa = true }
unfolding read_lines trim_space atoi contains ◌==ᵇ◌
settings_test = refl

children_test : (valid_children (codes "12,13") ≡ true) × (valid_children (codes "-e") ≡ false)
unfolding valid_children ◌==ᵇ◌
children_test = (refl, refl)

affinity_test : affinity_of (codes "pid 4711's current affinity list: 0-3") ≡ codes "0-3"
unfolding affinity_of trim_space
affinity_test = refl

table_test :
    table_rows (codes "TID PSR COMMAND\n 4711 2 CPU 0/KVM")
    ≡ record { id = codes "4711"; psr = codes "2"; command = codes "CPU 0/KVM" } ∷ []
unfolding table_rows split fields join
table_test = refl

ps_results-HarmlessLog_example :
    HarmlessLog pid_files (ps_results insertion executor pid_files true (101 ∷ 100 ∷ []) []).1
ps_results-HarmlessLog_example =
    ps_results-HarmlessLog pid_files insertion executor true (101 ∷ 100 ∷ []) []

get_vm_process_info-Shown_example :
    Shown executor pid_files 100 true false []
      (get_vm_process_info executor pid_files 100 true false []).0
get_vm_process_info-Shown_example = get_vm_process_info-Shown executor pid_files 100 true false []

ps_results-rows_example :
    (map
        (λ i. i.vmid)
        (ps_results insertion executor pid_files false (101 ∷ 100 ∷ []) (format_uint 102 ∷ [])).0
      ≡ 102 ∷ [])
    × Sublistᴰ
        (map (λ i. i.vmid) (ps_results insertion executor pid_files false (101 ∷ 100 ∷ []) []).0)
        (insertion.sort ltb (101 ∷ 100 ∷ []))
    × All
        (λ i. i.failure ≡ none)
        (ps_results insertion executor pid_files false (101 ∷ 100 ∷ []) []).0
ps_results-rows_example =
    ps_results-rows executor pid_files false insertion (101 ∷ 100 ∷ []) 102 (omega arith)
