-- ===== src/Scheduler/Processes/Targets.antt =====
-- The processes that get the mask, against a plain list of them.
use proxmox_cpu_affinity.Base.{
  append-nil, ℕ, suc, ℤ, ◌==ℤ◌, Bool, false, ◌||◌, if◌then◌else◌, List, [], ◌∷◌, ◌++◌, Option,
  Option-cases, none, some, lookup, lookup-insert, insert, ◌≡◌, refl, inl, inr, arith, ◌∙◌, ap,
}
use proxmox_cpu_affinity.Scheduler.Processes.{
  ProcFs, PidSet, get_process_threads, get_child_processes, add_all, add_threads, main_pids,
  add_children, collect_pids_to_update,
}

unfoldable pub elem : ℤ → List ℤ → Bool
elem x [] = false
elem x (y ∷ ys) = y ==ℤ x || elem x ys

or_none : Option (List ℤ) → List ℤ
or_none none = []
or_none (some xs) = xs

-- Each child, and its threads as they are when it is its turn.
child_list : ProcFs → ℕ → List ℤ → List ℤ
unfolding or_none
child_list proc t [] = []
child_list proc t (child ∷ rest) =
    child ∷ (or_none (get_process_threads proc t child) ++ child_list proc (suc t) rest)

main_list : ProcFs → ℤ → List ℤ
main_list proc pid = elim (get_process_threads proc 0 pid) [ none ↦ pid ∷ [] | some tids ↦ tids ]

-- The threads of the process, or the process where they cannot be read, then its children with
-- their threads.
pub targets : ProcFs → ℤ → List ℤ
targets proc pid =
    main_list proc pid ++ child_list proc 2 (or_none (get_child_processes proc 1 pid))

elem-append : (x : ℤ) (xs ys : List ℤ) → elem x (xs ++ ys) ≡ (elem x xs || elem x ys)
unfolding elem
elem-append x [] ys = refl
elem-append x (y ∷ xs) ys = ground (arith, elem-append x xs ys)

abbrev Holds : ℤ → List ℤ → PidSet → PidSet → Type 0
Holds x xs before after = lookup x after ≡ (if elem x xs then some tt else lookup x before)

lookup-add_all : (x : ℤ) (xs : List ℤ) (set : PidSet) → Holds x xs set (add_all xs set)
unfolding add_all elem
lookup-add_all x [] set = refl
lookup-add_all x (y ∷ xs) set =
    lookup-add_all x xs (insert y tt set) ∙ ground (arith, lookup-insert y x tt set)

lookup-add_threads :
    (x : ℤ) (o : Option (List ℤ)) (set : PidSet) → Holds x (or_none o) set (add_threads o set)
unfolding add_threads or_none
lookup-add_threads x none set = unfold elem in refl
lookup-add_threads x (some xs) set = lookup-add_all x xs set

lookup-add_children :
    (x : ℤ) (proc : ProcFs) (t : ℕ) (children : List ℤ) (set : PidSet)
    → Holds x (child_list proc t children) set (add_children proc t children set)
unfolding add_children child_list elem
lookup-add_children x proc t [] set = refl
lookup-add_children x proc t (child ∷ rest) set =
    let tids = get_process_threads proc t child in
    let here = insert child tt set in
    ground (
      arith,
      lookup-add_children x proc (suc t) rest (add_threads tids here),
      lookup-add_threads x tids here,
      lookup-insert child x tt set,
      elem-append x (or_none tids) (child_list proc (suc t) rest),
    )

lookup-main_pids :
    (x : ℤ) (proc : ProcFs) (pid : ℤ) → Holds x (main_list proc pid) [] (main_pids proc pid)
unfolding main_pids main_list
lookup-main_pids x proc pid = elim (Option-cases (get_process_threads proc 0 pid)) [
  | inl e ↦ rw (e, main_pids, main_list) (lookup-insert pid x tt [] ∙ unfold elem in ground arith)
  | inr (tids, e) ↦ rw (e, main_pids, main_list) (lookup-add_all x tids [])
]

lookup-nil : (x : ℤ) → lookup {V = Unit {0}} x [] ≡ none
lookup-nil x = unfold lookup in refl

no_children : (proc : ProcFs) → child_list proc 2 (or_none none) ≡ []
unfolding child_list
no_children proc = refl

-- The set holds exactly the threads of the process, or the process where they cannot be read, and
-- its children with their threads.
pub lookup-collect_pids_to_update :
    (x : ℤ) (proc : ProcFs) (pid : ℤ)
    → lookup x (collect_pids_to_update proc pid)
      ≡ (if elem x (targets proc pid) then some tt else none)
unfolding collect_pids_to_update targets
lookup-collect_pids_to_update x proc pid = elim (Option-cases (get_child_processes proc 1 pid)) [
  | inl e ↦
      rw (e, collect_pids_to_update, targets, no_children proc, append-nil)
        (lookup-main_pids x proc pid
          ∙ ap (λ o. if elem x (main_list proc pid) then some tt else o) (lookup-nil x))
  | inr (children, e) ↦
      rw (e, collect_pids_to_update, targets)
        (lookup-add_children x proc 2 children (main_pids proc pid) ∙ with_children children)
]
  where
    with_children :
        (children : List ℤ)
        → (if elem x (child_list proc 2 children) then some tt else lookup x (main_pids proc pid))
          ≡ (if elem x (main_list proc pid ++ child_list proc 2 (or_none (some children)))
              then some tt
              else none)
    with_children children =
        unfold or_none in
        ground (
          arith,
          lookup-main_pids x proc pid,
          lookup-nil x,
          elem-append x (main_list proc pid) (child_list proc 2 children),
        )
