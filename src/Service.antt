-- ===== src/Service.antt =====
-- pkg/service/service.go: the socket service. The JSON on the wire is decoded and encoded by
-- encoding/json: a connection brings what the decoder makes of it, and takes a `Response` value.
-- An error is kept as the value whose text is sent.
pub mod Accepting
pub mod Answers
pub mod Sessions
use proxmox_cpu_affinity.Base.{
  ℕ, ℤ, Bool, ◌==ᵇ◌, if◌then◌else◌, List, [], ◌∷◌, ◌++◌, Option, none, some, Bytes, codes, Result,
  ok, err, SliceSort,
}
use proxmox_cpu_affinity.CpuInfo.Floats.{Float64}
use proxmox_cpu_affinity.CpuInfo.Types.{CoreRanking, CpuInfo, CpuInfoError}
use proxmox_cpu_affinity.CpuInfo.Selection.{get_core_ranking, get_selections}
use proxmox_cpu_affinity.CpuInfo.Summary.{TopologyStats, summarize_rankings}
use proxmox_cpu_affinity.Proxmox.{Host}
use proxmox_cpu_affinity.Scheduler.Mask.{CpuMask}
use proxmox_cpu_affinity.Scheduler.Processes.{ProcFs}
use proxmox_cpu_affinity.Scheduler.Affinity.{Effect, SchedulerError, update_affinity}

pub record Request : Type 0 where
  pub command : Bytes
  pub vmid : ℤ

-- What `Decode` reports: the end of the input, a request, or an error.
pub data Incoming : Type 0 where
  closed : Incoming
  malformed : ℕ → Incoming
  received : Request → Incoming

pub data Payload (F : Type 0) : Type 0 where
  action : Bytes → Payload F
  pong : Payload F
  ranking : List (CoreRanking F) → Payload F
  summary : TopologyStats F → Payload F
  selections : List (ℤ × List ℤ) → Payload F

pub data Failure : Type 0 where
  scheduling : SchedulerError → Failure
  cpu_information : CpuInfoError → Failure
  unknown_command : Bytes → Failure
  decoding : ℕ → Failure

-- `Data` and `Error` are left out of the JSON where there is nothing.
pub record Response (F : Type 0) : Type 0 where
  pub status : Bytes
  pub payload : Option (Payload F)
  pub failure : Option Failure

unfoldable pub succeed : {F : Type 0} → Payload F → Response F
succeed p = record { status = codes "ok"; payload = some p; failure = none }

unfoldable pub refuse : {F : Type 0} → Failure → Response F
refuse f = record { status = codes "error"; payload = none; failure = some f }

-- What a connection leaves behind: the answer, the shared state, and the system calls.
pub record Handled (F Mask : Type 0) : Type 0 where
  pub response : Option (Response F)
  pub cpu_info : CpuInfo F
  pub calls : List (ℤ × Mask)

pub answer_update : {F Mask : Type 0} → Effect F Mask Bytes → Handled F Mask
unfolding succeed refuse
answer_update e = elim e.result [
  | err failure ↦ record {
    response = some (refuse (scheduling failure));
    cpu_info = e.cpu_info;
    calls = e.calls;
  }
  | ok text ↦ record {
    response = some (succeed (action text));
    cpu_info = e.cpu_info;
    calls = e.calls;
  }
]

-- An answer that changes nothing.
abbrev pub reply : {F Mask : Type 0} → Response F → CpuInfo F → Handled F Mask
reply r c = record { response = some r; cpu_info = c; calls = [] }

unfoldable pub answer_ranking :
    {F : Type 0} → (List (CoreRanking F) → Payload F) → CpuInfo F → Response F
unfolding succeed refuse
answer_ranking show c = elim (get_core_ranking c) [
  | err e ↦ refuse (cpu_information e)
  | ok rankings ↦ succeed (show rankings)
]

module _ (f : Float64) (sorting : SliceSort f.F) (masks : CpuMask) (proc : ProcFs)
    (order : List ℤ → List ℤ) (h : Host) where
  open f use {F}
  open masks use {Mask}

  -- The `switch` on the command.
  unfoldable pub dispatch : Request → CpuInfo F → Handled F Mask
  unfolding answer_update answer_ranking succeed refuse
  dispatch req c =
      if req.command ==ᵇ codes "update-affinity"
      then answer_update (update_affinity masks proc order h req.vmid c)
      else if req.command ==ᵇ codes "ping"
      then reply (succeed pong) c
      else if req.command ==ᵇ codes "core-ranking"
      then reply (answer_ranking ranking c) c
      else if req.command ==ᵇ codes "core-ranking-summary"
      then reply (answer_ranking (λ rankings. summary (summarize_rankings f sorting rankings)) c) c
      else if req.command ==ᵇ codes "core-vm-affinity"
      then reply (succeed (selections (get_selections c))) c
      else reply (refuse (unknown_command req.command)) c

  unfoldable pub handle_connection : Incoming → CpuInfo F → Handled F Mask
  unfolding dispatch refuse
  handle_connection closed c = record { response = none; cpu_info = c; calls = [] }
  handle_connection (malformed e) c = reply (refuse (decoding e)) c
  handle_connection (received req) c = dispatch req c
