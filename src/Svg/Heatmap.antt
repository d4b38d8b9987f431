-- ===== src/Svg/Heatmap.antt =====
-- pkg/svg/svg.go: `New`, `prepareData` and `calculateDimensions`.
pub mod Sizes
pub mod Order
use proxmox_cpu_affinity.Base.{
  ℕ, ◌+◌, ◌-◌, ◌*◌, ◌/◌, ltb, ◌==◌, not, ℤ, pos, ◌==ℤ◌, ltb_ℤ, Bool, if◌then◌else◌, List, [], ◌∷◌,
  ◌++◌, length, Option, none, some, Bytes, codes, format_uint, lookup, insert, SliceSort,
}
use proxmox_cpu_affinity.CpuInfo.Floats.{Float64}
use proxmox_cpu_affinity.CpuInfo.Types.{Neighbor, CoreRanking}
use proxmox_cpu_affinity.CpuInfo.Summary.{TopologyStats}
use proxmox_cpu_affinity.Svg.Types.{
  ColorFloat, Mode, mode_default, mode_affinity, HeatmapDimensions, Heatmap,
}

abbrev pub cell_size : ℕ
cell_size = 40

abbrev pub padding_top : ℕ
padding_top = 100

abbrev pub base_padding_left : ℕ
base_padding_left = 80

abbrev pub affinity_table_gap : ℕ
affinity_table_gap = 40

abbrev pub affinity_table_width : ℕ
affinity_table_width = 300

abbrev pub affinity_row_height : ℕ
affinity_row_height = 40

-- `m[key]` of a map to numbers.
unfoldable pub socket_of : List (ℤ × ℤ) → ℤ → ℤ
unfolding lookup
socket_of m cpu = elim (lookup cpu m) [ none ↦ pos 0 | some s ↦ s ]

-- By socket, and then by number.
abbrev pub by_socket : List (ℤ × ℤ) → ℤ → ℤ → Bool
by_socket m a b =
    if not (socket_of m a ==ℤ socket_of m b)
    then ltb_ℤ (socket_of m a) (socket_of m b)
    else ltb_ℤ a b

plural : ℕ → Bytes → Bytes
plural n word = if not (n == 1) then word ++ codes "s" else word

module _ {F : Type 0} where
  -- `latencyMap[cpu]`.
  unfoldable pub latency_row : ℤ → List (ℤ × List (ℤ × F)) → List (ℤ × F)
  unfolding lookup
  latency_row cpu m = elim (lookup cpu m) [ none ↦ [] | some row ↦ row ]

  put_latency : ℤ → ℤ → F → List (ℤ × List (ℤ × F)) → List (ℤ × List (ℤ × F))
  unfolding latency_row insert
  put_latency src dst lat m = insert src (insert dst lat (latency_row src m)) m

  -- The loop over the neighbors of `src`.
  take_neighbors : ℤ → List (Neighbor F) → Heatmap F → Heatmap F
  unfolding put_latency insert
  take_neighbors src [] h = h
  take_neighbors src (n ∷ ns) h = take_neighbors src ns (record h {
    cpu_to_socket = insert n.cpu n.socket h.cpu_to_socket;
    latency_map = put_latency src n.cpu n.latency_ns h.latency_map;
  })

  -- The loop over the rankings, where `zero` is `0.0`.
  take_rankings : F → List (CoreRanking F) → Heatmap F → Heatmap F
  unfolding put_latency take_neighbors
  take_rankings zero [] h = h
  take_rankings zero (r ∷ rs) h = take_rankings zero rs (
      take_neighbors r.cpu r.ranking (record h {
        cpu_ids = h.cpu_ids ++ r.cpu ∷ [];
        latency_map = put_latency r.cpu r.cpu zero h.latency_map;
      }))

  -- The fields before `prepareData`.
  start_heatmap :
      List (CoreRanking F) → TopologyStats F → List (ℤ × List ℤ) → Bytes → Mode → Heatmap F
  start_heatmap rankings summary affinity cpu_name mode = record {
    rankings = rankings;
    affinity = affinity;
    cpu_name = cpu_name;
    mode = mode;
    cpu_ids = [];
    cpu_to_socket = [];
    latency_map = [];
    stats = summary;
    dims = record { width = 0; height = 0; padding_left = 0 };
  }

  pub prepare_data : SliceSort ℤ → F → Heatmap F → Heatmap F
  unfolding take_rankings
  prepare_data sorting zero h =
      let taken = take_rankings zero h.rankings h in
      record taken { cpu_ids = sorting.sort (by_socket taken.cpu_to_socket) taken.cpu_ids }

  unfoldable pub specs_text : Heatmap F → Bytes
  unfolding plural
  specs_text h =
      format_uint h.stats.socket_count
      ++ codes " "
      ++ plural h.stats.socket_count (codes "Socket")
      ++ codes " | "
      ++ format_uint (length h.cpu_ids)
      ++ codes " "
      ++ plural (length h.cpu_ids) (codes "CPU")

-- The size of the heat map alone, with a text of the given width.
plain_dimensions : ℕ → ℕ → HeatmapDimensions
plain_dimensions n text =
    let needed = base_padding_left + n * cell_size + 20 in
    let height = padding_top + n * cell_size + 20 in
    if ltb needed text
    then record {
      width = text;
      height = height;
      padding_left = base_padding_left + (text - needed) / 2;
    }
    else record { width = needed; height = height; padding_left = base_padding_left }

-- The size with the table of `k` VMs.
with_table : ℕ → HeatmapDimensions → HeatmapDimensions
with_table k d =
    let content = if k == 0 then affinity_row_height else k * affinity_row_height in
    let needed = (padding_top - 10) + (60 + content) + 20 in
    record d {
      width = d.width + (affinity_table_gap + affinity_table_width);
      height = if ltb d.height needed then needed else d.height;
    }

module _ (f : Float64) (o : ColorFloat f) where
  open f use {F, of_int}
  open o use {show_cents}

  unfoldable pub statistics_text : Heatmap F → Bytes
  statistics_text h =
      codes "Min: "
      ++ show_cents h.stats.min_latency_ns
      ++ codes " ns | Max: "
      ++ show_cents h.stats.max_latency_ns
      ++ codes " ns | Median: "
      ++ show_cents h.stats.median_latency_ns
      ++ codes " ns | Mean: "
      ++ show_cents h.stats.mean_latency_ns
      ++ codes " ns"

  required_text_width : Heatmap F → ℕ
  unfolding statistics_text
  required_text_width h =
      let title = length h.cpu_name * 12 in
      let stats = length (statistics_text h) * 8 in (if ltb title stats then stats else title) + 40

  calculate_dimensions : Heatmap F → HeatmapDimensions
  unfolding required_text_width plain_dimensions with_table
  calculate_dimensions h =
      let d = plain_dimensions (length h.cpu_ids) (required_text_width h) in
      elim h.mode [ mode_default ↦ d | mode_affinity ↦ with_table (length h.affinity) d ]

  unfoldable pub new_heatmap :
      SliceSort ℤ
      → List (CoreRanking F)
      → TopologyStats F
      → List (ℤ × List ℤ)
      → Bytes
      → Mode
      → Heatmap F
  unfolding prepare_data calculate_dimensions start_heatmap
  new_heatmap sorting rankings summary affinity cpu_name mode =
      let start = start_heatmap rankings summary affinity cpu_name mode in
      let h = prepare_data sorting (of_int (pos 0)) start in
      record h { dims = calculate_dimensions h }
