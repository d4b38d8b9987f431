-- ===== src/Svg/Types.antt =====
-- pkg/svg/types.go: the data of a picture. Coordinates are natural numbers of pixels: they are sums of
-- multiples of the lengths of lists.
use proxmox_cpu_affinity.Base.{ℕ, ℤ, Bool, List, Bytes}
use proxmox_cpu_affinity.CpuInfo.Floats.{Float64}
use proxmox_cpu_affinity.CpuInfo.Types.{CoreRanking}
use proxmox_cpu_affinity.CpuInfo.Summary.{TopologyStats}

-- What the package uses of Go's floating-point numbers besides `Float64`.
pub record ColorFloat (f : Float64) : Type 0 where
  pub sub : f.F → f.F → f.F
  pub mul : f.F → f.F → f.F
  pub at_least : f.F → f.F → Bool
  -- The constant of so many thousandths.
  pub thousandths : ℕ → f.F
  -- `int(x)`.
  pub truncate : f.F → ℤ
  -- `%.0f` and `%.2f`.
  pub show_whole : f.F → Bytes
  pub show_cents : f.F → Bytes

pub data Mode : Type 0 where
  mode_default mode_affinity : Mode

pub record HeatmapDimensions : Type 0 where
  pub width : ℕ
  pub height : ℕ
  pub padding_left : ℕ

pub record Heatmap (F : Type 0) : Type 0 where
  pub rankings : List (CoreRanking F)
  pub affinity : List (ℤ × List ℤ)
  pub cpu_name : Bytes
  pub mode : Mode
  pub cpu_ids : List ℤ
  pub cpu_to_socket : List (ℤ × ℤ)
  pub latency_map : List (ℤ × List (ℤ × F))
  pub stats : TopologyStats F
  pub dims : HeatmapDimensions

pub record SvgLabel : Type 0 where
  pub x : ℕ
  pub y : ℕ
  pub text : Bytes

pub record SvgLine : Type 0 where
  pub x1 : ℕ
  pub y1 : ℕ
  pub x2 : ℕ
  pub y2 : ℕ

pub record SvgCell : Type 0 where
  pub x : ℕ
  pub y : ℕ
  pub width : ℕ
  pub height : ℕ
  pub fill : Bytes
  pub text_color : Bytes
  pub text : Bytes
  pub text_x : ℕ
  pub text_y : ℕ

-- `y`, `line_y` and `rect_y` count from the top of the table.
pub record AffinityRow : Type 0 where
  pub y : ℕ
  pub vmid : Bytes
  pub cpus : Bytes
  pub line_y : ℕ
  pub rect_y : ℕ
  pub fill : Bytes

pub record SvgData : Type 0 where
  pub width : ℕ
  pub height : ℕ
  pub center_x : ℕ
  pub title : Bytes
  pub specs : Bytes
  pub stats : Bytes
  pub row_labels : List SvgLabel
  pub col_labels : List SvgLabel
  pub h_lines : List SvgLine
  pub v_lines : List SvgLine
  pub cells : List SvgCell
  pub show_affinity : Bool
  pub affinity_x : ℕ
  pub affinity_y : ℕ
  pub affinity_rows : List AffinityRow
