-- ===== src/Scheduler/Processes.antt =====
-- `defaultSystemAffinityOps` and `collectPidsToUpdate` of pkg/scheduler/affinity.go. /proc changes
-- while it is read: what it holds is a function of the number of operations made before, and the
-- reads that one operation makes see it as it is at that moment.
pub mod Targets
use proxmox_cpu_affinity.Base.{
  ℕ, zero, suc, ◌+◌, ℤ, List, [], ◌∷◌, ◌++◌, Option, none, some, Bytes, atoi, fields, insert,
}

pub record ProcFs : Type 0 where
  -- The names in /proc/PID/task.
  pub task : ℕ → ℤ → Option (List Bytes)
  -- The content of /proc/PID/task/TID/children.
  pub children : ℕ → ℤ → ℤ → Option Bytes

-- The texts that are numbers.
numeric : List Bytes → List ℤ
numeric [] = []
numeric (w ∷ ws) = elim (atoi w) [ none ↦ numeric ws | some n ↦ n ∷ numeric ws ]

pub get_process_threads : ProcFs → ℕ → ℤ → Option (List ℤ)
unfolding numeric
get_process_threads proc t pid = elim (proc.task t pid) [
  | none ↦ none
  | some names ↦ some (numeric names)
]

-- The loop over the threads; a file that cannot be read is passed over.
children_of : ProcFs → ℕ → ℤ → List ℤ → List ℤ
unfolding numeric
children_of proc t pid [] = []
children_of proc t pid (tid ∷ tids) = elim (proc.children t pid tid) [
  | none ↦ children_of proc t pid tids
  | some text ↦ numeric (fields text) ++ children_of proc t pid tids
]

pub get_child_processes : ProcFs → ℕ → ℤ → Option (List ℤ)
unfolding get_process_threads children_of
get_child_processes proc t pid = elim (get_process_threads proc t pid) [
  | none ↦ none
  | some tids ↦ some (children_of proc t pid tids)
]

-- A `map[int]struct{}`.
abbrev pub PidSet : Type 0
PidSet = List (ℤ × Unit {0})

add_all : List ℤ → PidSet → PidSet
add_all [] set = set
add_all (x ∷ xs) set = add_all xs (insert x tt set)

add_threads : Option (List ℤ) → PidSet → PidSet
unfolding add_all
add_threads none set = set
add_threads (some tids) set = add_all tids set

-- The threads of the main process; the process itself where they cannot be read.
main_pids : ProcFs → ℤ → PidSet
unfolding add_all get_process_threads
main_pids proc pid = elim (get_process_threads proc 0 pid) [
  | none ↦ insert pid tt []
  | some tids ↦ add_all tids []
]

-- The loop over the children, from operation `t` on.
add_children : ProcFs → ℕ → List ℤ → PidSet → PidSet
unfolding add_threads get_process_threads
add_children proc t [] set = set
add_children proc t (child ∷ rest) set =
    add_children proc (suc t) rest
      (add_threads (get_process_threads proc t child) (insert child tt set))

unfoldable pub collect_pids_to_update : ProcFs → ℤ → PidSet
unfolding get_child_processes main_pids add_children
collect_pids_to_update proc pid = elim (get_child_processes proc 1 pid) [
  | none ↦ main_pids proc pid
  | some children ↦ add_children proc 2 children (main_pids proc pid)
]
