-- ===== src/Cli/Ps/Children.antt =====
-- What the command runs: the output of `pgrep` becomes an argument of `ps` only where it is a list of
-- numbers.
use proxmox_cpu_affinity.Base.{
  ℕ, Bool, true, false, ◌==ᵇ◌, Bool-cases, List, [], ◌∷◌, Option, some, Option-cases, Bytes,
  trim_space, parse_uint, All, SliceSort, ltb, if_elim, ◌≡◌, ◌≢◌, inl, inr, arith,
}
use proxmox_cpu_affinity.Cli.Session.{number_or_zero}
use proxmox_cpu_affinity.Cli.Ps.Types.{
  PsInfo, PsCommand, read_config, check_process, read_affinity, list_threads, find_children,
  list_children, PsLog, PsExecutor, ps_run,
}
use proxmox_cpu_affinity.Cli.Ps.Process.{
  commas, is_pid_char, all_pid_chars, valid_children, child_rows, add_details, found_process,
  get_vm_process_info, process_infos, ps_results, affinity_of,
}

all_pid_chars-All : (s : Bytes) → all_pid_chars s ≡ true → All (λ c. is_pid_char c ≡ true) s
unfolding all_pid_chars
all_pid_chars-All [] h = tt
all_pid_chars-All (c ∷ s) h = elim (Bool-cases (is_pid_char c)) [
  | inl q ↦ (q, all_pid_chars-All s (ground arith))
  | inr q ↦ absurd (ground arith)
]

valid_children-All :
    (s : Bytes) → valid_children s ≡ true → (s ≢ []) × All (λ c. is_pid_char c ≡ true) s
unfolding valid_children ◌==ᵇ◌
valid_children-All [] h = cc
valid_children-All (c ∷ s) h = ((λ e. cc), all_pid_chars-All (c ∷ s) h)

module _ (pid_reader : ℕ → Option Bytes) where
  -- The number stands in the pid file of some VM.
  pub IsPid : ℕ → Type 0
  IsPid pid =
      (vmid : ℕ) × (text : Bytes) × (pid_reader vmid ≡ some text)
      × (parse_uint (trim_space text) ≡ some pid)

  pub IsHarmless : PsCommand → Type 0
  IsHarmless (read_config vmid) = Unit
  IsHarmless (check_process pid) = IsPid pid
  IsHarmless (read_affinity pid) = IsPid pid
  IsHarmless (list_threads pid) = IsPid pid
  IsHarmless (find_children pid) = IsPid pid
  IsHarmless (list_children pids) = (pids ≢ []) × All (λ c. is_pid_char c ≡ true) pids

  abbrev pub HarmlessLog : PsLog → Type 0
  HarmlessLog log = All (λ entry. IsHarmless entry.0) log

  child_rows-HarmlessLog :
      (exec : PsExecutor) (pids : Bytes) (log : PsLog)
      → HarmlessLog log
      → HarmlessLog (child_rows exec pids log).1
  unfolding child_rows ps_run IsHarmless
  child_rows-HarmlessLog exec pids log h = elim (Bool-cases (valid_children pids)) [
    | inl q ↦ rw (q, child_rows) (valid_children-All pids q, h)
    | inr q ↦ rw (q, child_rows) h
  ]

  add_details-HarmlessLog :
      (exec : PsExecutor) (pid : ℕ) (info : PsInfo) (log : PsLog)
      → IsPid pid
      → HarmlessLog log
      → HarmlessLog (add_details exec pid (info, log)).1
  unfolding add_details ps_run IsHarmless
  add_details-HarmlessLog exec pid info log p h =
      child_rows-HarmlessLog exec (commas (trim_space (exec _ (find_children pid)).output)) _
        (p, (p, h))

  found_process-HarmlessLog :
      (exec : PsExecutor) (verbose explicit : Bool) (info : PsInfo) (log : PsLog)
      → IsPid info.pid
      → HarmlessLog log
      → HarmlessLog (found_process exec verbose explicit info log).1
  unfolding found_process ps_run IsHarmless
  found_process-HarmlessLog exec verbose explicit info log p h =
      if_elim {A = Option PsInfo × PsLog} (λ r. HarmlessLog r.1)
        (exec log (check_process info.pid)).failed (λ _. (p, h))
        λ _.
          if_elim {A = Option PsInfo × PsLog} (λ r. HarmlessLog r.1) verbose
            (λ _. add_details-HarmlessLog exec info.pid (shown_at info) _ p (p, (p, h)))
            (λ _. (p, (p, h)))
    where
      shown_at : PsInfo → PsInfo
      shown_at i = record i {
        affinity =
            affinity_of
              (exec ((check_process i.pid, exec log (check_process i.pid)) ∷ log)
                (read_affinity i.pid)).output;
      }

  get_vm_process_info-HarmlessLog :
      (exec : PsExecutor) (vmid : ℕ) (verbose explicit : Bool) (log : PsLog)
      → HarmlessLog log
      → HarmlessLog (get_vm_process_info exec pid_reader vmid verbose explicit log).1
  unfolding get_vm_process_info ps_run IsHarmless IsPid
  get_vm_process_info-HarmlessLog exec vmid verbose explicit log h =
      elim (Option-cases (pid_reader vmid)) [
        | inl q ↦ rw (q, get_vm_process_info) h
        | inr (text, q) ↦ elim (Option-cases (parse_uint (trim_space text))) [
          | inl r ↦ rw (q, r, get_vm_process_info) h
          | inr (pid, r) ↦
              rw (q, r, get_vm_process_info)
                (found_process-HarmlessLog exec verbose explicit _ _ (vmid, text, q, r) (tt, h))
        ]
      ]

  process_infos-HarmlessLog :
      (exec : PsExecutor) (verbose explicit : Bool) (vmids : List ℕ) (log : PsLog)
      → HarmlessLog log
      → HarmlessLog (process_infos exec pid_reader verbose explicit vmids log).1
  unfolding process_infos
  process_infos-HarmlessLog exec verbose explicit [] log h = h
  process_infos-HarmlessLog exec verbose explicit (vmid ∷ vmids) log h =
      process_infos-HarmlessLog exec verbose explicit vmids _
        (get_vm_process_info-HarmlessLog exec vmid verbose explicit log h)

  -- Whatever the programs print, every program that the command runs is asked about a VM, about a
  -- number that the pid file of some VM holds, or about a list of children that is not empty and
  -- consists of digits and commas only.
  pub ps_results-HarmlessLog :
      (sorting : SliceSort ℕ) (exec : PsExecutor) (verbose : Bool) (running : List ℕ)
      (args : List Bytes)
      → HarmlessLog (ps_results sorting exec pid_reader verbose running args).1
  unfolding ps_results
  ps_results-HarmlessLog sorting exec verbose running [] =
      process_infos-HarmlessLog exec verbose false (sorting.sort ltb running) [] tt
  ps_results-HarmlessLog sorting exec verbose running (arg ∷ args) =
      process_infos-HarmlessLog exec verbose true (number_or_zero arg ∷ []) [] tt
