-- ===== src/Cli/Status/Wire.antt =====
-- The service of pkg/service as the other side of a request.
use proxmox_cpu_affinity.Base.{
  ◌>>=◌, ℤ, Bool-cases, ◌==ᵇ◌, ◌==◌, List, [], ◌∷◌, length, Option, none, some, Bytes, codes,
  Result, ok, err, SliceSort, ◌≡◌, ◌≢◌, refl, ◌∙◌, ap, arith, nil_of_length, inl, inr,
}
use proxmox_cpu_affinity.CpuInfo.Floats.{Float64}
use proxmox_cpu_affinity.CpuInfo.Types.{CoreRanking, CpuInfo, cache_empty}
use proxmox_cpu_affinity.CpuInfo.Selection.{get_core_ranking, get_selections}
use proxmox_cpu_affinity.CpuInfo.Summary.{summarize_rankings}
use proxmox_cpu_affinity.Config.{Config}
use proxmox_cpu_affinity.Proxmox.{Host}
use proxmox_cpu_affinity.Scheduler.Mask.{CpuMask}
use proxmox_cpu_affinity.Scheduler.Processes.{ProcFs}
use proxmox_cpu_affinity.Service.{
  received, Payload, pong, ranking, summary, selections, Failure, cpu_information, Response,
  handle_connection, dispatch, succeed, refuse, answer_ranking,
}
use proxmox_cpu_affinity.Cli.Status.Types.{
  SocketResponse, Decoder, ClientError, response_unreadable, service_error, Exchange,
  service_is_running, plain_request, checked, readable, pong_in, or_null, resolve_socket_path,
}
use proxmox_cpu_affinity.Cli.Status.Encoding.{Encoding}
use proxmox_cpu_affinity.Cli.Status.Commands.{status_command, send, fetch_service_data}

module _ {F : Type 0} (d : Decoder F) (w : Encoding d) where
  written : Response F → Option d.Json → SocketResponse d.Json
  written r payload = record {
    status = r.status;
    payload = payload;
    error = elim r.failure [ none ↦ [] | some e ↦ w.describe e ];
  }

  -- `none` where the encoder writes nothing; its error is dropped.
  pub wire_response : Response F → Option (SocketResponse d.Json)
  unfolding written
  wire_response r = elim r.payload [
    | none ↦ some (written r none)
    | some p ↦ elim (w.encode p) [ none ↦ none | some v ↦ some (written r (some v)) ]
  ]

  pub wire : Option (Response F) → Result ClientError (SocketResponse d.Json)
  unfolding wire_response
  wire none = err response_unreadable
  wire (some r) = elim (wire_response r) [ none ↦ err response_unreadable | some resp ↦ ok resp ]

  wire_written :
      (p : Payload F) (v : d.Json)
      → w.encode p ≡ some v
      → wire (some (succeed p)) ≡ ok (record { status = codes "ok"; payload = some v; error = [] })
  unfolding wire wire_response written succeed
  wire_written p v e = rw (e, wire, wire_response)

  wire_unwritten :
      (p : Payload F) → w.encode p ≡ none → wire (some (succeed p)) ≡ err response_unreadable
  unfolding wire wire_response succeed
  wire_unwritten p e = rw (e, wire, wire_response)

module _ (f : Float64) (d : Decoder f.F) (w : Encoding d) (show_cents : f.F → Bytes)
    (sorting : SliceSort f.F) (ids : SliceSort ℤ) (masks : CpuMask) (proc : ProcFs)
    (order : List ℤ → List ℤ) (h : Host) (socket : Bytes) (cfg : Config) (c : CpuInfo f.F) where
  -- A request to the service in the state `c`, whatever the socket's path.
  pub served : Exchange d.Json
  unfolding wire
  served path req =
      wire d w
        (handle_connection f sorting masks proc order h
          (received (record { command = req.command; vmid = req.vmid })) c).response

  pub status_served : status_command f d show_cents served socket cfg ≡ (service_is_running ∷ [], 0)
  unfolding status_command served handle_connection dispatch send pong_in ◌==ᵇ◌
  status_served =
      let (v, e, p) = w.pong_read in rw (wire_written d w pong v e, status_command, served, p) refl

  -- The socket that is asked.
  pub path : Bytes
  path = resolve_socket_path socket cfg

  -- What `fetchServiceData` does with what the exchange brought back.
  pub after_exchange :
      (A : Type 0)
      → (d.Json → Option A)
      → Result ClientError (SocketResponse d.Json)
      → Result ClientError A
  unfolding checked readable
  after_exchange A decode answer = answer >>= λ resp. checked d resp >>= λ v. readable (decode v)

  pub fetch_good :
      (A : Type 0) (decode : d.Json → Option A) (command : Bytes) (p : Payload f.F) (v : d.Json)
      (a : A)
      → served path (plain_request command) ≡ wire d w (some (succeed p))
      → w.encode p ≡ some v
      → decode v ≡ some a
      → fetch_service_data f d show_cents served socket cfg decode command ≡ ok a
  unfolding fetch_service_data send path checked readable or_null ◌==ᵇ◌ after_exchange
  fetch_good A decode command p v a q e r =
      ap (after_exchange A decode) (q ∙ wire_written d w p v e) ∙ ap (readable) r

  -- Where nothing was written.
  pub fetch_lost :
      (A : Type 0) (decode : d.Json → Option A) (command : Bytes) (p : Payload f.F)
      → served path (plain_request command) ≡ wire d w (some (succeed p))
      → w.encode p ≡ none
      → fetch_service_data f d show_cents served socket cfg decode command ≡ err response_unreadable
  unfolding fetch_service_data send path checked readable or_null ◌==ᵇ◌ after_exchange
  fetch_lost A decode command p q e = ap (after_exchange A decode) (q ∙ wire_unwritten d w p e)

  pub fetch_bad :
      (A : Type 0) (decode : d.Json → Option A) (command : Bytes) (e : Failure)
      → served path (plain_request command) ≡ wire d w (some (refuse e))
      → fetch_service_data f d show_cents served socket cfg decode command
        ≡ err (service_error (w.describe e))
  unfolding fetch_service_data send path wire wire_response written refuse checked readable ◌==ᵇ◌
      after_exchange
  fetch_bad A decode command e q = ap (after_exchange A decode) q

  pub answer_filled :
      (show : List (CoreRanking f.F) → Payload f.F)
      → c.cache ≢ []
      → answer_ranking show c ≡ succeed (show c.cache)
  unfolding answer_ranking get_core_ranking
  answer_filled show ne = elim (Bool-cases (length c.cache == 0)) [
    | inl q ↦ absurd (ne (nil_of_length c.cache (ground arith)))
    | inr q ↦ rw (q, answer_ranking, get_core_ranking) refl
  ]

  pub answer_empty :
      (show : List (CoreRanking f.F) → Payload f.F)
      → c.cache ≡ []
      → answer_ranking show c ≡ refuse (cpu_information cache_empty)
  unfolding answer_ranking get_core_ranking
  answer_empty show e = rw (e, answer_ranking, get_core_ranking) refl

  pub ranking_answer :
      served path (plain_request (codes "core-ranking"))
      ≡ wire d w (some (answer_ranking ranking c))
  unfolding served handle_connection dispatch ◌==ᵇ◌
  ranking_answer = refl

  abbrev pub show_summary : List (CoreRanking f.F) → Payload f.F
  show_summary rankings = summary (summarize_rankings f sorting rankings)

  pub summary_answer :
      served path (plain_request (codes "core-ranking-summary"))
      ≡ wire d w (some (answer_ranking show_summary c))
  unfolding served handle_connection dispatch ◌==ᵇ◌
  summary_answer = refl

  pub selections_answer :
      served path (plain_request (codes "core-vm-affinity"))
      ≡ wire d w (some (succeed (selections (get_selections c))))
  unfolding served handle_connection dispatch ◌==ᵇ◌
  selections_answer = refl
