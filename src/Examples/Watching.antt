-- ===== src/Examples/Watching.antt =====
-- A hotplug event on its way to the worker, and a run of the reassign command.
use proxmox_cpu_affinity.Base.{
  ◌==◌, true, false, List, [], ◌∷◌, none, some, Bytes, codes, if◌then◌else◌, contains, trim_suffix,
  base_name, parse_uint, ◌≡◌, refl, insertion, insertion_sort,
}
use proxmox_cpu_affinity.Hotplug.{
  Reactor, ingest, action_add, new_reactor, on_message, event_of, started, stepped, hears,
}
use proxmox_cpu_affinity.Hotplug.Draining.{ReactorSteps, drains}
use proxmox_cpu_affinity.Hotplug.Batches.{flatten, IsSound, ReactorReachable-IsSound}
use proxmox_cpu_affinity.Cli.Session.{Session, Executor, qm_config}
use proxmox_cpu_affinity.Cli.Reassign.{Placing, Progress, get_all_running_vm_ids}
use proxmox_cpu_affinity.Cli.Reassign.Command.{reassign}
use proxmox_cpu_affinity.Cli.Reassign.Results.Asked.{all_running, reassign-Names}
use proxmox_cpu_affinity.Cli.Reassign.Results.{IsReported, vmids_of}

abbrev message : Bytes
message = codes "add@/devices/system/cpu/cpu12 ACTION=add SUBSYSTEM=cpu"

event_test : event_of message ≡ some (record { cpu = codes "cpu12"; action = action_add })
unfolding event_of contains
event_test = refl

ReactorReachable-IsSound_example : IsSound (on_message message new_reactor)
ReactorReachable-IsSound_example = ReactorReachable-IsSound (stepped started (hears message))

-- VM 100 has the hook, and VM 101 has none.
abbrev executor : Executor
executor log (qm_config vmid) = record {
  output = if vmid == 100 then codes "hookscript: local:snippets/proxmox-cpu-affinity-hook" else [];
  failed = false;
}
executor log _ = record { output = []; failed = true }

abbrev service : Placing
service k vmid = some (codes "ok", [])

abbrev pid_files : List Bytes
pid_files = codes "/var/run/qemu-server/101.pid" ∷ codes "/var/run/qemu-server/100.pid" ∷ []

running_test : get_all_running_vm_ids insertion pid_files ≡ 100 ∷ 101 ∷ []
unfolding get_all_running_vm_ids insertion_sort parse_uint trim_suffix base_name
running_test = refl

abbrev session : Session
session = record { log = []; ha_cache = none }

abbrev reassigned : Progress
reassigned = (reassign insertion executor service true (some pid_files) true false [] session).1

reassign-Names_example :
    IsReported false reassigned
    × (vmids_of reassigned.results ≡ get_all_running_vm_ids insertion pid_files)
reassign-Names_example =
    reassign-Names executor service false session insertion pid_files true []
      (get_all_running_vm_ids insertion pid_files) all_running

-- The event of the message is handled in the end.
drains_example :
    (s : Reactor) × ReactorSteps (on_message message new_reactor) s
    × (flatten s.handled ≡ (on_message message new_reactor).accepted)
unfolding on_message event_of contains ingest
drains_example =
    drains (on_message message new_reactor) (stepped started (hears message)) refl refl refl
