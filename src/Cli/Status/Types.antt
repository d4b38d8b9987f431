-- ===== src/Cli/Status/Types.antt =====
-- The requests of cmd/cli/helper.go to the service, and the data of cmd/cli/status.go.
use proxmox_cpu_affinity.Base.{
  ℤ, pos, Bool, false, not, ◌==ᵇ◌, if◌then◌else◌, List, [], Option, none, some, Bytes, codes,
  Result, ok, err,
}
use proxmox_cpu_affinity.CpuInfo.Types.{CoreRanking}
use proxmox_cpu_affinity.CpuInfo.Summary.{TopologyStats}
use proxmox_cpu_affinity.Config.{Config}
use proxmox_cpu_affinity.Svg.Types.{SvgData}
use proxmox_cpu_affinity.Svg.Drawing.{SvgError}

pub record SocketRequest : Type 0 where
  pub command : Bytes
  pub vmid : ℤ

-- `payload`, the field `Data`, is any JSON value, or missing.
pub record SocketResponse (Json : Type 0) : Type 0 where
  pub status : Bytes
  pub payload : Option Json
  pub error : Bytes

-- What encoding/json does with the values of a response.
pub record Decoder (F : Type 0) : Type 1 where
  pub Json : Type 0
  pub null : Json
  pub is_pong : Json → Bool
  pub rankings : Json → Option (List (CoreRanking F))
  pub stats : Json → Option (TopologyStats F)
  pub selections : Json → Option (List (ℤ × List ℤ))

pub data ClientError : Type 0 where
  not_reachable send_failed response_unreadable data_unreadable : ClientError
  service_error : Bytes → ClientError

-- `sendSocketRequest`.
abbrev pub Exchange : Type 0 → Type 0
Exchange Json = Bytes → SocketRequest → Result ClientError (SocketResponse Json)

pub data Printed (F Json : Type 0) : Type 0 where
  failed : ClientError → Printed F Json
  hint : Printed F Json
  no_pong : SocketResponse Json → Printed F Json
  service_is_running : Printed F Json
  value json_value : Option Json → Printed F Json
  json_rankings : List (CoreRanking F) → Printed F Json
  json_stats : TopologyStats F → Printed F Json
  json_selections : List (ℤ × List ℤ) → Printed F Json
  table : List (List Bytes) → Printed F Json
  svg_failed : SvgError → Printed F Json
  write_failed : Printed F Json
  svg : SvgData → Printed F Json

-- `resolveSocketPath`.
unfoldable pub resolve_socket_path : Bytes → Config → Bytes
resolve_socket_path flag cfg = if not (flag ==ᵇ []) then flag else cfg.socket_file

-- A request without a VM.
abbrev pub plain_request : Bytes → SocketRequest
plain_request command = record { command = command; vmid = pos 0 }

abbrev pub ping : SocketRequest
ping = plain_request (codes "ping")

unfoldable pub readable : {A : Type 0} → Option A → Result ClientError A
readable none = err data_unreadable
readable (some a) = ok a

module _ {F : Type 0} (d : Decoder F) where
  open d use {Json}

  unfoldable pub pong_in : Option Json → Bool
  pong_in none = false
  pong_in (some v) = d.is_pong v

  unfoldable pub or_null : Option Json → Json
  or_null none = d.null
  or_null (some v) = v

  unfoldable pub checked : SocketResponse Json → Result ClientError Json
  unfolding or_null
  checked resp =
      if not (resp.status ==ᵇ codes "ok")
      then err (service_error resp.error)
      else ok (or_null resp.payload)
