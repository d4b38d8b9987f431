-- ===== src/Cli/Status/Commands.antt =====
-- The commands of cmd/cli/status.go. What a request brings back and what encoding/json makes of it are
-- parameters.
use proxmox_cpu_affinity.Base.{
  ℕ, ℤ, Bool, true, false, not, ◌||◌, ◌==ᵇ◌, if◌then◌else◌, List, [], ◌∷◌, Option, none, some,
  Bytes, codes, Result, ok, err, ◌>>=◌, SliceSort,
}
use proxmox_cpu_affinity.CpuInfo.Floats.{Float64}
use proxmox_cpu_affinity.Config.{Config}
use proxmox_cpu_affinity.Svg.Types.{ColorFloat, mode_default, mode_affinity, SvgData}
use proxmox_cpu_affinity.Svg.Heatmap.{new_heatmap}
use proxmox_cpu_affinity.Svg.Drawing.{SvgError, generate}
use proxmox_cpu_affinity.Cli.Status.Types.{
  ClientError, Decoder, Exchange, Printed, SocketRequest, SocketResponse, checked, failed, hint,
  json_rankings, json_selections, json_stats, json_value, no_pong, ping, plain_request, pong_in,
  readable, resolve_socket_path, service_error, service_is_running, svg, svg_failed, table, value,
  write_failed,
}
use proxmox_cpu_affinity.Cli.Status.Tables.{
  print_core_rankings, print_core_ranking_summary, print_core_vm_affinity,
}

module _ (f : Float64) (d : Decoder f.F) (show_cents : f.F → Bytes) (exchange : Exchange d.Json)
    (socket : Bytes) (cfg : Config) where
  open f use {F}
  open d use {Json}

  -- The lines that are printed, and the exit status.
  abbrev pub Outcome : Type 0
  Outcome = List (Printed F Json) × ℕ

  unfoldable pub send : SocketRequest → Result ClientError (SocketResponse Json)
  unfolding resolve_socket_path
  send req = exchange (resolve_socket_path socket cfg) req

  unfoldable pub status_command : Outcome
  unfolding send pong_in
  status_command = elim (send ping) [
    | err e ↦ (failed e ∷ [], 1)
    | ok resp ↦
        if not (resp.status ==ᵇ codes "ok") || not (pong_in d resp.payload)
        then (no_pong resp ∷ [], 1)
        else (service_is_running ∷ [], 0)
  ]

  unfoldable pub ping_command : Bool → Outcome
  unfolding send
  ping_command json_output = elim (send ping) [
    | err e ↦ (failed e ∷ hint ∷ [], 1)
    | ok resp ↦
        if not (resp.status ==ᵇ codes "ok")
        then (failed (service_error resp.error) ∷ [], 1)
        else if json_output
        then (json_value resp.payload ∷ [], 0)
        else (value resp.payload ∷ [], 0)
  ]

  -- `fetchServiceData` into a target that `decode` reads.
  unfoldable pub fetch_service_data :
      {A : Type 0} → (Json → Option A) → Bytes → Result ClientError A
  unfolding send readable checked
  fetch_service_data decode command = do
    resp ← send (plain_request command)
    v ← checked d resp
    readable (decode v)

  -- What a command does with what it fetched.
  unfoldable pub with_data : {A : Type 0} → Result ClientError A → (A → Outcome) → Outcome
  with_data (err e) show = (failed e ∷ [], 1)
  with_data (ok a) show = show a

  unfoldable pub core_ranking_command : Bool → Outcome
  unfolding fetch_service_data with_data print_core_rankings
  core_ranking_command json_output =
      with_data (fetch_service_data d.rankings (codes "core-ranking")) λ rankings.
        if json_output
        then (json_rankings rankings ∷ [], 0)
        else (table (print_core_rankings show_cents rankings) ∷ [], 0)

  unfoldable pub core_ranking_summary_command : Bool → Outcome
  unfolding fetch_service_data with_data print_core_ranking_summary
  core_ranking_summary_command json_output =
      with_data (fetch_service_data d.stats (codes "core-ranking-summary")) λ stats.
        if json_output
        then (json_stats stats ∷ [], 0)
        else (table (print_core_ranking_summary show_cents stats) ∷ [], 0)

  unfoldable pub core_vm_affinity_command : SliceSort ℤ → Bool → Outcome
  unfolding fetch_service_data with_data print_core_vm_affinity
  core_vm_affinity_command sorting json_output =
      with_data (fetch_service_data d.selections (codes "core-vm-affinity")) λ selections.
        if json_output
        then (json_selections selections ∷ [], 0)
        else (table (print_core_vm_affinity sorting selections) ∷ [], 0)

  -- The picture, for an output file that can be written or not, if one is given.
  save_svg : Option Bool → Result SvgError SvgData → Outcome
  save_svg file (err e) = (svg_failed e ∷ [], 1)
  save_svg (some false) (ok picture) = (write_failed ∷ [], 1)
  save_svg (some true) (ok picture) = ([], 0)
  save_svg none (ok picture) = (svg picture ∷ [], 0)

  unfoldable pub svg_command : ColorFloat f → SliceSort ℤ → Bytes → Bool → Option Bool → Outcome
  unfolding fetch_service_data with_data save_svg
  svg_command o sorting cpu_name show_affinity file =
      with_data (fetch_service_data d.rankings (codes "core-ranking")) λ rankings.
        with_data (fetch_service_data d.stats (codes "core-ranking-summary")) λ stats.
          with_data (fetch_service_data d.selections (codes "core-vm-affinity")) λ selections.
            let mode = if show_affinity then mode_affinity else mode_default in
            save_svg file (
              generate f o sorting
                (new_heatmap f o sorting rankings stats selections cpu_name mode))
