-- ===== src/Cli/Reassign/Results.antt =====
-- What the loop of cmd/cli/reassign.go reports, and which requests it sends.
pub mod Asked
use proxmox_cpu_affinity.Base.{
  ℕ, ℤ, Bool, true, false, Bool-cases, if_elim, not, if◌then◌else◌, List, [], ◌∷◌, ◌++◌, map,
  length, append_assoc, append-nil, Option, none, some, Bytes, ◌==ᵇ◌, codes, ◌≡◌, refl, sym, ap,
  ◌∙◌, inl, inr,
}
use proxmox_cpu_affinity.Cli.Session.{Executor, run, qm_config, is_hook_enabled}
use proxmox_cpu_affinity.Cli.Reassign.{
  ReassignStatus, skipped_unreadable, skipped_disabled, would_reassign, service_failed, success,
  refused, ReassignResult, Progress, Placing, status_of, finished, to_int, request, reassign_vm,
  reassign_vms,
}

-- The results that a request stands behind.
pub was_asked : ReassignStatus → Bool
was_asked skipped_unreadable = false
was_asked skipped_disabled = false
was_asked would_reassign = false
was_asked service_failed = true
was_asked success = true
was_asked (refused text) = true

-- The VMs whose results a request stands behind.
unfoldable pub asked : List ReassignResult → List ℤ
unfolding was_asked
asked [] = []
asked (r ∷ rs) = let rest = asked rs in if was_asked r.status then to_int r.vmid ∷ rest else rest

asked-append : (rs ss : List ReassignResult) → asked (rs ++ ss) ≡ asked rs ++ asked ss
unfolding asked
asked-append [] ss = refl
asked-append (r ∷ rs) ss = elim (Bool-cases (was_asked r.status)) [
  | inl e ↦ rw (e, asked) (ap (◌∷◌ (to_int r.vmid)) (asked-append rs ss))
  | inr e ↦ rw (e, asked) (asked-append rs ss)
]

abbrev pub vmids_of : List ReassignResult → List ℕ
vmids_of = map (λ r. r.vmid)

-- The requests are those that the results tell of, and none is sent in a dry run.
pub record IsReported (dry_run : Bool) (p : Progress) : Type 0 where
  pub told : p.requests ≡ asked p.results
  pub quiet : dry_run ≡ true → p.requests ≡ []

module _ (dry_run : Bool) where
  -- One result more, for this VM.
  abbrev Adds : ℕ → Progress → Progress → Type 0
  Adds vmid p q = IsReported dry_run q × (vmids_of q.results ≡ vmids_of p.results ++ vmid ∷ [])

  vmids_of-append :
      (rs : List ReassignResult) (r : ReassignResult)
      → vmids_of (rs ++ r ∷ []) ≡ vmids_of rs ++ r.vmid ∷ []
  vmids_of-append [] r = refl
  vmids_of-append (s ∷ rs) r = ap (◌∷◌ s.vmid) (vmids_of-append rs r)

  finished-Adds :
      (vmid : ℕ) (status : ReassignStatus) (p : Progress)
      → was_asked status ≡ false
      → IsReported dry_run p
      → Adds vmid p (finished vmid status p)
  unfolding finished
  finished-Adds vmid status p a v = (
    record {
      told =
          v.told
          ∙ rw (asked-append p.results (record { vmid = vmid; status = status } ∷ []))
              (unfold asked in rw (a, append-nil));
      quiet = v.quiet;
    },
    vmids_of-append p.results (record { vmid = vmid; status = status }),
  )

  status_of-asked : (answer : Option (Bytes × Bytes)) → was_asked (status_of answer) ≡ true
  unfolding status_of was_asked
  status_of-asked none = refl
  status_of-asked (some (status, text)) =
      if_elim (λ s. was_asked s ≡ true) (not (status ==ᵇ codes "ok")) (λ _. refl) (λ _. refl)

  request-Adds :
      (service : Placing) (vmid : ℕ) (p : Progress)
      → dry_run ≡ false
      → IsReported dry_run p
      → Adds vmid p (request service vmid p)
  unfolding request finished
  request-Adds service vmid p d v =
      let answer = service (length p.requests) (to_int vmid) in
      (
        record {
          told =
              ap (λ t. t ++ to_int vmid ∷ []) v.told
              ∙ rw (asked-append p.results (record { vmid = vmid; status = status_of answer } ∷ []))
                  (unfold asked in rw (status_of-asked answer));
          quiet = λ e. cc;
        },
        vmids_of-append p.results (record { vmid = vmid; status = status_of answer }),
      )

  reassign_vm-Adds :
      (exec : Executor) (service : Placing) (vmid : ℕ) (p : Progress)
      → IsReported dry_run p
      → Adds vmid p (reassign_vm exec service dry_run vmid p)
  unfolding reassign_vm run
  reassign_vm-Adds exec service vmid p v =
      let (reply, session) = run exec (qm_config vmid) p.session in
      let read = record p { session = session } in
      let same : IsReported dry_run read = record { told = v.told; quiet = v.quiet } in
      if_elim (Adds vmid p) reply.failed
        (λ _. finished-Adds vmid skipped_unreadable read (unfold was_asked in refl) same)
        λ _.
          if_elim (Adds vmid p) (not (is_hook_enabled reply.output))
            (λ _. finished-Adds vmid skipped_disabled read (unfold was_asked in refl) same)
            λ _.
              if_elim (Adds vmid p) dry_run
                (λ _. finished-Adds vmid would_reassign read (unfold was_asked in refl) same)
                λ d. request-Adds service vmid read d same

  -- The loop adds one result for each VM, in the order of the VMs. The service is asked to place
  -- exactly the VMs whose result tells of a request, in that order, and in a dry run none.
  pub reassign_vms-IsReported :
      (exec : Executor) (service : Placing) (vmids : List ℕ) (p : Progress)
      → IsReported dry_run p
      → IsReported dry_run (reassign_vms exec service dry_run vmids p)
        × (vmids_of (reassign_vms exec service dry_run vmids p).results
            ≡ vmids_of p.results ++ vmids)
  unfolding reassign_vms
  reassign_vms-IsReported exec service [] p v = (v, sym (append-nil (vmids_of p.results)))
  reassign_vms-IsReported exec service (vmid ∷ vmids) p v =
      let (w, e) = reassign_vm-Adds exec service vmid p v in
      let (x, q) =
        reassign_vms-IsReported exec service vmids (reassign_vm exec service dry_run vmid p) w in
      (x, q ∙ ap (λ t. t ++ vmids) e ∙ append_assoc (vmids_of p.results) (vmid ∷ []) vmids)
