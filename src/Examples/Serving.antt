-- ===== src/Examples/Serving.antt =====
-- The service on the machine of the examples: VM 100 runs and asks for its CPUs.
use mathlib.Core.List.Perm
use proxmox_cpu_affinity.Base.{
  ℕ, ℤ, List, pos, true, [], ◌∷◌, map, some, Bytes, codes, ok, ◌≡◌, refl, insertion, All, lookup,
  insert, mul_int, fields, atoi, trim_space, ◌==ᵇ◌, itoa,
}
use proxmox_cpu_affinity.CpuInfo.Selection.{select_cpus}
use proxmox_cpu_affinity.Proxmox.{content, get_vm_config, get_vm_pid, pid_path}
use proxmox_cpu_affinity.Proxmox.Queries.{get_vm_pid-running}
use proxmox_cpu_affinity.Scheduler.Processes.{collect_pids_to_update}
use proxmox_cpu_affinity.Scheduler.Processes.Targets.{elem, targets}
use proxmox_cpu_affinity.Scheduler.Affinity.{update_affinity, apply_affinity, pin_all, mask_of}
use proxmox_cpu_affinity.Scheduler.Affinity.Masks.{pin_all-targets}
use proxmox_cpu_affinity.Scheduler.Affinity.Effects.{Update, update_affinity-Update}
use proxmox_cpu_affinity.Service.{Incoming, received, malformed, handle_connection}
use proxmox_cpu_affinity.Service.Answers.{handle_connection_reads}
use proxmox_cpu_affinity.Service.Accepting.{
  ServerState, listening_state, accept_connection, accept_failure, finish_connection, ServerSteps,
  here, further, accepts, handles, fails,
}
use proxmox_cpu_affinity.Service.Accepting.Answering.{IsServing, ServerSteps-IsServing}
use proxmox_cpu_affinity.Examples.Machine.{whole, list_mask, host, proc, ready, placed_vm}
use proxmox_cpu_affinity.Examples.Selecting.{reached}

config_test : get_vm_config host (pos 100) ≡ ok placed_vm
unfolding get_vm_config
config_test = refl

pid_test : get_vm_pid host (pos 100) ≡ ok (pos 4711)
unfolding get_vm_pid pid_path ◌==ᵇ◌ itoa trim_space atoi
pid_test = refl

abbrev request : Bytes → Incoming
request command = received (record { command = command; vmid = pos 100 })

-- VM 100 gets CPUs 1 and 2: both threads of its process, and its child.
serve_test :
    (handle_connection whole insertion list_mask proc
      (λ xs. xs)
      host
      (request (codes "update-affinity"))
      ready).calls
    ≡ (pos 4711, pos 2 ∷ pos 1 ∷ [])
      ∷ (pos 4712, pos 2 ∷ pos 1 ∷ [])
      ∷ (pos 4800, pos 2 ∷ pos 1 ∷ [])
      ∷ []
unfolding handle_connection update_affinity apply_affinity select_cpus get_vm_config get_vm_pid
    pid_path pin_all mask_of collect_pids_to_update insert lookup ◌==ᵇ◌ itoa trim_space atoi mul_int
    fields
serve_test = refl

get_vm_pid-running_example :
    (text : Bytes) × (host.read_file (pid_path (pos 100)) ≡ content text)
    × (atoi (trim_space text) ≡ some (pos 4711))
    × (host.process_exists (pos 4711) ≡ true)
get_vm_pid-running_example = get_vm_pid-running host (pos 100) (pos 4711) pid_test (λ e. cc)

pin_all-targets_example :
    (elem
        (pos 4800)
        (map (λ call. call.0) (pin_all list_mask proc (λ xs. xs) (pos 4711) (pos 1 ∷ [])))
      ≡ elem (pos 4800) (targets proc (pos 4711)))
    × All (λ call. call.1 ≡ pos 1 ∷ []) (pin_all list_mask proc (λ xs. xs) (pos 4711) (pos 1 ∷ []))
pin_all-targets_example =
    pin_all-targets list_mask proc (λ xs. xs) (λ xs. Perm.rfl) (pos 4711) (pos 1 ∷ []) (pos 4800)

update_affinity-Update_example :
    Update list_mask proc
      (λ xs. xs)
      host
      (pos 100)
      ready
      (update_affinity list_mask proc (λ xs. xs) host (pos 100) ready)
update_affinity-Update_example =
    update_affinity-Update list_mask proc (λ xs. xs) host (pos 100) ready

handle_connection_reads_example :
    ((handle_connection whole insertion list_mask proc (λ xs. xs) host (malformed 0) ready).cpu_info
      ≡ ready)
    × ((handle_connection whole insertion list_mask proc (λ xs. xs) host (malformed 0) ready).calls
        ≡ [])
handle_connection_reads_example =
    handle_connection_reads whole insertion list_mask proc (λ xs. xs) host (malformed 0) ready
      (λ vmid e. cc)

-- Two clients connect, and the second one is handled first; then the loop ends.
abbrev both_wait : ServerState ℕ (List ℤ)
both_wait =
    accept_connection (request (codes "ping"))
      (accept_connection (request (codes "update-affinity")) (listening_state ready))

abbrev second_done : ServerState ℕ (List ℤ)
second_done =
    finish_connection 1
      (handle_connection whole insertion list_mask proc (λ xs. xs) host (request (codes "ping"))
        ready)
      ((0, request (codes "update-affinity")) ∷ []) both_wait

abbrev ended : ServerState ℕ (List ℤ)
ended = accept_failure true second_done

served : ServerSteps whole insertion insertion list_mask (listening_state ready) ended
unfolding accept_connection finish_connection listening_state
served =
    further
      (further (further (further here (accepts _ refl)) (accepts _ refl)) (
        handles proc (λ xs. xs) host 1 (request (codes "ping"))
          ((0, request (codes "update-affinity")) ∷ []) [] refl))
      (fails true refl)

ServerSteps-IsServing_example : IsServing whole insertion insertion list_mask ended
ServerSteps-IsServing_example =
    ServerSteps-IsServing whole insertion insertion list_mask ready ended reached served
