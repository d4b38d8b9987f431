-- ===== src/Service/Sessions.antt =====
-- Any sequence of connections, and updates of the ranking in between.
use proxmox_cpu_affinity.Base.{ℤ, List, SliceSort, ◌≡◌, ap, subst, Result-cases, inl, inr, Bytes}
use proxmox_cpu_affinity.CpuInfo.Floats.{Float64}
use proxmox_cpu_affinity.CpuInfo.Types.{CpuInfo, Neighbor}
use proxmox_cpu_affinity.CpuInfo.History.{Reachable, next, selects}
use proxmox_cpu_affinity.Proxmox.{Host}
use proxmox_cpu_affinity.Scheduler.Mask.{CpuMask}
use proxmox_cpu_affinity.Scheduler.Processes.{ProcFs}
use proxmox_cpu_affinity.Scheduler.Affinity.{Effect}
use proxmox_cpu_affinity.Scheduler.Affinity.Effects.{
  Update, failed, manual, skipped, pinned, update_affinity-Update,
}
use proxmox_cpu_affinity.Service.{
  Incoming, closed, malformed, received, answer_update, handle_connection,
}
use proxmox_cpu_affinity.Service.Answers.{dispatch_cases}

answer_update-cpu_info :
    {F Mask : Type 0} (e : Effect F Mask Bytes) → (answer_update e).cpu_info ≡ e.cpu_info
unfolding answer_update
answer_update-cpu_info e = elim (Result-cases e.result) [
  | inl (text, q) ↦ rw (q, answer_update)
  | inr (failure, q) ↦ rw (q, answer_update)
]

module _ (f : Float64) (sorting : SliceSort f.F) (neighbor_sorting : SliceSort (Neighbor f.F))
    (masks : CpuMask) (proc : ProcFs) (order : List ℤ → List ℤ) (h : Host) where
  Update-Reachable :
      (vmid : ℤ) {c : CpuInfo f.F} {e : Effect f.F masks.Mask Bytes}
      → Reachable f neighbor_sorting c
      → Update masks proc order h vmid c e
      → Reachable f neighbor_sorting e.cpu_info
  Update-Reachable vmid r (failed failure p u) = rw (u.1) r
  Update-Reachable vmid r (manual config p a q u) = rw (u.1) r
  Update-Reachable vmid r (skipped config reason p a s q u) = rw (u.1) r
  Update-Reachable vmid {c} r (pinned config pid cpus p q alive a z s t k) =
      subst (Reachable f neighbor_sorting) (ap (λ x. x.1) s) (next r (selects vmid _))

  -- A connection takes a reachable state to a reachable one, so the ranking and the selections stay
  -- consistent whatever clients send.
  pub handle_connection-Reachable :
      (i : Incoming) (c : CpuInfo f.F)
      → Reachable f neighbor_sorting c
      → Reachable f neighbor_sorting (handle_connection f sorting masks proc order h i c).cpu_info
  unfolding handle_connection
  handle_connection-Reachable closed c r = r
  handle_connection-Reachable (malformed e) c r = r
  handle_connection-Reachable (received req) c r =
      dispatch_cases f sorting masks proc order h (λ a. Reachable f neighbor_sorting a.cpu_info) req
        c
        (λ _.
          rw answer_update-cpu_info
            (Update-Reachable req.vmid r (update_affinity-Update masks proc order h req.vmid c)))
        r (λ show. r) r r
