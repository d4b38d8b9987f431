-- ===== src/Cli/Ps/Results.antt =====
-- The rows of the command, for the VM that is named or for all that run.
use mathlib.Core.List.{Sublistᴰ, map, ◌∷◌, []}
use proxmox_cpu_affinity.Base.{
  refl, List, ℕ, Bool, Option, ◌≡◌, true, Bytes, false, none, inl, some, ◌⊎◌, subst, SliceSort, sym,
  inr, ◌≤◌, All, max_uint64, ap₂, trim_space, format_uint, ltb, parse_uint-format_uint,
}
use proxmox_cpu_affinity.Cli.Session.{number_or_zero}
use proxmox_cpu_affinity.Cli.Ps.Types.{PsInfo, PsExecutor, PsLog, pid_file_not_found, invalid_pid}
use proxmox_cpu_affinity.Cli.Ps.Process.{
  when, process_infos, ps_results, only_failed, get_vm_process_info,
}
use proxmox_cpu_affinity.Cli.Ps.Rows.{
  Shown, no_file, no_number, gone, alive, get_vm_process_info-Shown,
}

when-cases :
    {A : Type 0} (b : Bool) (a : A)
    → ((b ≡ true) × (when b a ≡ some a)) ⊎ ((b ≡ false) × (when b a ≡ none))
when-cases true a = inl (refl, refl)
when-cases false a = inr (refl, refl)

-- A row is about the VM; it has no error unless the VM was asked for, and none that was is left out.
data RowOf (vmid : ℕ) (explicit : Bool) : Option PsInfo → Type 0 where
  left_out : explicit ≡ false → RowOf vmid explicit none
  shown :
      (i : PsInfo)
      → i.vmid ≡ vmid
      → (explicit ≡ true) ⊎ (i.failure ≡ none)
      → RowOf vmid explicit (some i)

when-RowOf :
    (vmid : ℕ) (explicit : Bool) (i : PsInfo)
    → i.vmid ≡ vmid
    → RowOf vmid explicit (when explicit i)
when-RowOf vmid explicit i e = elim (when-cases explicit i) [
  | inl (q, r) ↦ subst (RowOf vmid explicit) (sym r) (shown i e (inl q))
  | inr (q, r) ↦ subst (RowOf vmid explicit) (sym r) (left_out q)
]

module _ (exec : PsExecutor) (pid_reader : ℕ → Option Bytes) (verbose : Bool) where
  get_vm_process_info-RowOf :
      (vmid : ℕ) (explicit : Bool) (log : PsLog)
      → RowOf vmid explicit (get_vm_process_info exec pid_reader vmid verbose explicit log).0
  unfolding only_failed
  get_vm_process_info-RowOf vmid explicit log =
      of_Shown _ (get_vm_process_info-Shown exec pid_reader vmid verbose explicit log)
    where
      of_Shown :
          (o : Option PsInfo)
          → Shown exec pid_reader vmid verbose explicit log o
          → RowOf vmid explicit o
      of_Shown o (no_file q) = when-RowOf vmid explicit (only_failed vmid pid_file_not_found) refl
      of_Shown o (no_number text q r) =
          when-RowOf vmid explicit (only_failed vmid (invalid_pid (trim_space text))) refl
      of_Shown o (gone pid i p d c f) = when-RowOf vmid explicit i c.0
      of_Shown o (alive pid i p d c f a b) = shown i c.0 (inr f)

  process_infos_explicit :
      (vmids : List ℕ) (log : PsLog)
      → map (λ i. i.vmid) (process_infos exec pid_reader verbose true vmids log).0 ≡ vmids
  unfolding process_infos
  process_infos_explicit [] log = refl
  process_infos_explicit (vmid ∷ vmids) log =
      step _ _ (get_vm_process_info-RowOf vmid true log) (process_infos_explicit vmids _)
    where
      step :
          (o : Option PsInfo) (infos : List PsInfo)
          → RowOf vmid true o
          → map (λ i. i.vmid) infos ≡ vmids
          → map (λ i. i.vmid) (elim o [ none ↦ infos | some i ↦ i ∷ infos ]) ≡ vmid ∷ vmids
      step o infos (left_out q) h = cc
      step o infos (shown i e f) h = ap₂ ◌∷◌ e h

  process_infos_implicit :
      (vmids : List ℕ) (log : PsLog)
      → Sublistᴰ (map (λ i. i.vmid) (process_infos exec pid_reader verbose false vmids log).0) vmids
        × All (λ i. i.failure ≡ none) (process_infos exec pid_reader verbose false vmids log).0
  unfolding process_infos
  process_infos_implicit [] log = (Sublistᴰ.slnil, tt)
  process_infos_implicit (vmid ∷ vmids) log =
      step _ _ (get_vm_process_info-RowOf vmid false log) (process_infos_implicit vmids _)
    where
      step :
          (o : Option PsInfo) (infos : List PsInfo)
          → RowOf vmid false o
          → Sublistᴰ (map (λ i. i.vmid) infos) vmids × All (λ i. i.failure ≡ none) infos
          → Sublistᴰ
              (map (λ i. i.vmid) (elim o [ none ↦ infos | some i ↦ i ∷ infos ]))
              (vmid ∷ vmids)
            × All (λ i. i.failure ≡ none) (elim o [ none ↦ infos | some i ↦ i ∷ infos ])
      step o infos (left_out q) h = (Sublistᴰ.cons h.0, h.1)
      step o infos (shown i e (inl f)) h = cc
      step o infos (shown i e (inr f)) h = (Sublistᴰ.cons-cons e h.0, (f, h.1))

  -- With the number of a VM the command shows exactly one row, for that VM. Without, its rows are for
  -- some of the running VMs, in the order in which these were sorted, and none has an error.
  pub ps_results-rows :
      (sorting : SliceSort ℕ) (running : List ℕ) (vmid : ℕ)
      → vmid ≤ max_uint64
      → (map
            (λ i. i.vmid)
            (ps_results sorting exec pid_reader verbose running (format_uint vmid ∷ [])).0
          ≡ vmid ∷ [])
        × Sublistᴰ
            (map (λ i. i.vmid) (ps_results sorting exec pid_reader verbose running []).0)
            (sorting.sort ltb running)
        × All (λ i. i.failure ≡ none) (ps_results sorting exec pid_reader verbose running []).0
  unfolding ps_results number_or_zero
  ps_results-rows sorting running vmid le =
      let (some_of, fine) = process_infos_implicit (sorting.sort ltb running) [] in
      (
        rw (parse_uint-format_uint vmid le, ps_results, number_or_zero)
            (process_infos_explicit (vmid ∷ []) []),
        some_of,
        fine,
      )
