-- ===== src/Service/Answers.antt =====
-- The form of the answers, and what a connection may change.
use proxmox_cpu_affinity.Base.{
  ℤ, if_elim, ◌==ᵇ◌, ==ᵇ_iff, List, [], Option, none, some, Bytes, codes, Result-cases, SliceSort,
  ◌≡◌, ◌≢◌, refl, inl, inr,
}
use proxmox_cpu_affinity.CpuInfo.Floats.{Float64}
use proxmox_cpu_affinity.CpuInfo.Types.{CoreRanking, CpuInfo}
use proxmox_cpu_affinity.CpuInfo.Selection.{get_core_ranking, get_selections}
use proxmox_cpu_affinity.CpuInfo.Summary.{summarize_rankings}
use proxmox_cpu_affinity.Proxmox.{Host}
use proxmox_cpu_affinity.Scheduler.Mask.{CpuMask}
use proxmox_cpu_affinity.Scheduler.Processes.{ProcFs}
use proxmox_cpu_affinity.Scheduler.Affinity.{Effect, update_affinity}
use proxmox_cpu_affinity.Service.{
  Request, Incoming, closed, malformed, received, Payload, Failure, Response, Handled, pong,
  ranking, summary, selections, unknown_command, succeed, refuse, answer_update, answer_ranking,
  dispatch, handle_connection, reply,
}

-- Status "ok" with data and no error, or status "error" with an error and no data.
pub data IsAnswer {F : Type 0} : Option (Response F) → Type 0 where
  good :
      (p : Payload F)
      → IsAnswer (some (record { status = codes "ok"; payload = some p; failure = none }))
  bad :
      (e : Failure)
      → IsAnswer (some (record { status = codes "error"; payload = none; failure = some e }))

answer_update-IsAnswer :
    {F Mask : Type 0} (e : Effect F Mask Bytes) → IsAnswer (answer_update e).response
unfolding answer_update
answer_update-IsAnswer e = elim (Result-cases e.result) [
  | inl (text, q) ↦ rw (q, answer_update) (good _)
  | inr (failure, q) ↦ rw (q, answer_update) (bad _)
]

answer_ranking-IsAnswer :
    {F : Type 0} (show : List (CoreRanking F) → Payload F) (c : CpuInfo F)
    → IsAnswer (some (answer_ranking show c))
unfolding answer_ranking
answer_ranking-IsAnswer show c = elim (Result-cases (get_core_ranking c)) [
  | inl (rankings, q) ↦ rw (q, answer_ranking) (good _)
  | inr (e, q) ↦ rw (q, answer_ranking) (bad _)
]

module _ (f : Float64) (sorting : SliceSort f.F) (masks : CpuMask) (proc : ProcFs)
    (order : List ℤ → List ℤ) (h : Host) where
  open f use {F}
  open masks use {Mask}

  -- What holds of the answer to each command holds of every answer.
  pub dispatch_cases {ℓ} :
      (P : Handled F Mask → Type ℓ) (req : Request) (c : CpuInfo F)
      → (req.command ≡ codes "update-affinity"
          → P (answer_update (update_affinity masks proc order h req.vmid c)))
      → P (reply (succeed pong) c)
      → ((show : List (CoreRanking F) → Payload F) → P (reply (answer_ranking show c) c))
      → P (reply (succeed (selections (get_selections c))) c)
      → P (reply (refuse (unknown_command req.command)) c)
      → P (dispatch f sorting masks proc order h req c)
  unfolding dispatch
  dispatch_cases P req c updates pings ranks selects unknown =
      if_elim P (req.command ==ᵇ codes "update-affinity")
        (λ e. updates ((==ᵇ_iff req.command (codes "update-affinity")).0 e))
        λ _.
          if_elim P (req.command ==ᵇ codes "ping") (λ _. pings)
            λ _.
              if_elim P (req.command ==ᵇ codes "core-ranking") (λ _. ranks ranking)
                λ _.
                  if_elim P (req.command ==ᵇ codes "core-ranking-summary")
                    (λ _. ranks (λ rankings. summary (summarize_rankings f sorting rankings)))
                    λ _.
                      if_elim P (req.command ==ᵇ codes "core-vm-affinity") (λ _. selects)
                        (λ _. unknown)

  -- A client that sent anything gets one answer, and it is of one of the two forms.
  pub handle_connection-IsAnswer :
      (i : Incoming) (c : CpuInfo F)
      → i ≢ closed
      → IsAnswer (handle_connection f sorting masks proc order h i c).response
  unfolding handle_connection
  handle_connection-IsAnswer closed c ne = absurd (ne refl)
  handle_connection-IsAnswer (malformed e) c ne = bad _
  handle_connection-IsAnswer (received req) c ne =
      dispatch_cases (λ r. IsAnswer r.response) req c
        (λ _. answer_update-IsAnswer (update_affinity masks proc order h req.vmid c))
        (unfold succeed in good pong) (λ show. answer_ranking-IsAnswer show c)
        (unfold succeed in good (selections (get_selections c)))
        (unfold refuse in bad (unknown_command req.command))

  -- Every command but `update-affinity` reads only: it changes no state and makes no system call.
  pub handle_connection_reads :
      (i : Incoming) (c : CpuInfo F)
      → ((vmid : ℤ) → i ≢ received (record { command = codes "update-affinity"; vmid = vmid }))
      → ((handle_connection f sorting masks proc order h i c).cpu_info ≡ c)
        × ((handle_connection f sorting masks proc order h i c).calls ≡ [])
  unfolding handle_connection
  handle_connection_reads closed c ne = (refl, refl)
  handle_connection_reads (malformed e) c ne = (refl, refl)
  handle_connection_reads (received req) c ne =
      dispatch_cases (λ r. (r.cpu_info ≡ c) × (r.calls ≡ [])) req c
        (λ e. absurd (ne req.vmid (λ i. received (record { command = e i; vmid = req.vmid }))))
        (refl, refl) (λ show. (refl, refl)) (refl, refl) (refl, refl)
