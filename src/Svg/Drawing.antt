-- ===== src/Svg/Drawing.antt =====
-- pkg/svg/svg.go: `Generate`, up to the data that the template takes.
pub mod Bounds
pub mod Grid
pub mod Picture
use proxmox_cpu_affinity.Base.{
  ℕ, zero, suc, ◌+◌, ◌-◌, ◌*◌, ◌/◌, ◌%◌, ltb, ◌==◌, not, ℤ, pos, ◌==ℤ◌, ltb_ℤ, Bool, true, false,
  ◌&&◌, if◌then◌else◌, List, [], ◌∷◌, ◌++◌, map, length, Option, none, some, Bytes, codes, itoa,
  join, lookup, Result, ok, err, SliceSort,
}
use proxmox_cpu_affinity.CpuInfo.Floats.{Float64}
use proxmox_cpu_affinity.Svg.Types.{
  ColorFloat, Mode, mode_default, mode_affinity, Heatmap, SvgLabel, SvgLine, SvgCell, AffinityRow,
  SvgData,
}
use proxmox_cpu_affinity.Svg.Color.{show_rgb, calculate_cell_color}
use proxmox_cpu_affinity.Svg.Heatmap.{
  cell_size, padding_top, affinity_table_gap, affinity_row_height, socket_of, latency_row,
  specs_text, statistics_text,
}

pub data SvgError : Type 0 where
  no_ranking_data : SvgError

-- Whether a CPU is on another socket than the one before it, if there is one.
abbrev pub new_socket : List (ℤ × ℤ) → Option ℤ → ℤ → Bool
new_socket sockets none cpu = false
new_socket sockets (some before) cpu = not (socket_of sockets cpu ==ℤ socket_of sockets before)

module _ (f : Float64) (o : ColorFloat f) where
  open f use {F, of_int, div, less}
  open o use {show_whole}

  pub latency : Heatmap F → ℤ → ℤ → F
  unfolding latency_row lookup
  latency h src dst = elim (lookup dst (latency_row src h.latency_map)) [
    | none ↦ of_int (pos 0)
    | some lat ↦ lat
  ]

  -- `fill` and `textColor`.
  cell_colors : Heatmap F → ℤ → ℤ → Bytes × Bytes
  unfolding latency
  cell_colors h src dst =
      let largest = h.stats.max_latency_ns in
      let ratio =
        if less (of_int (pos 0)) largest then div (latency h src dst) largest else of_int (pos 0) in
      let (c, text_color) = calculate_cell_color f o ratio in
      if not (src ==ℤ dst) then (show_rgb f o c, text_color) else (codes "#eeeeee", codes "black")

  -- The cell of `src` and `dst` in a row and a column.
  pub cell : Heatmap F → ℕ → ℤ → ℕ → ℤ → SvgCell
  unfolding latency cell_colors
  cell h row src col dst =
      let x = h.dims.padding_left + col * cell_size in
      let y = padding_top + row * cell_size in
      let (fill, text_color) = cell_colors h src dst in
      record {
        x = x;
        y = y;
        width = cell_size;
        height = cell_size;
        fill = fill;
        text_color = text_color;
        text = show_whole (latency h src dst);
        text_x = x + cell_size / 2;
        text_y = y + cell_size / 2;
      }

  col_label : Heatmap F → ℕ → ℤ → SvgLabel
  col_label h col dst = record {
    x = h.dims.padding_left + col * cell_size + cell_size / 2;
    y = padding_top - 10;
    text = itoa dst;
  }

  v_line : Heatmap F → ℕ → SvgLine
  v_line h col =
      let x = h.dims.padding_left + col * cell_size in
      record { x1 = x; y1 = padding_top; x2 = x; y2 = h.dims.height - 20 }

  row_label : Heatmap F → ℕ → ℤ → SvgLabel
  row_label h row src = record {
    x = h.dims.padding_left - 10;
    y = padding_top + row * cell_size + cell_size / 2;
    text = codes "CPU " ++ itoa src;
  }

  h_line : Heatmap F → ℕ → SvgLine
  h_line h row =
      let y = padding_top + row * cell_size in
      record {
        x1 = h.dims.padding_left;
        y1 = y;
        x2 = h.dims.padding_left + length h.cpu_ids * cell_size;
        y2 = y;
      }

  -- One round of the inner loop; `before` is the CPU of the column before.
  draw_cell : Heatmap F → ℕ → ℤ → ℕ → Option ℤ → ℤ → SvgData → SvgData
  unfolding cell col_label v_line
  draw_cell h row src col before dst drawn = record drawn {
    col_labels =
        if row == 0 then drawn.col_labels ++ col_label h col dst ∷ [] else drawn.col_labels;
    v_lines =
        if row == 0 && new_socket h.cpu_to_socket before dst
        then drawn.v_lines ++ v_line h col ∷ []
        else drawn.v_lines;
    cells = drawn.cells ++ cell h row src col dst ∷ [];
  }

  draw_cells : Heatmap F → ℕ → ℤ → ℕ → Option ℤ → List ℤ → SvgData → SvgData
  unfolding draw_cell
  draw_cells h row src col before [] drawn = drawn
  draw_cells h row src col before (dst ∷ dsts) drawn =
      draw_cells h row src (suc col) (some dst) dsts (draw_cell h row src col before dst drawn)

  -- The outer loop, from a row on; `before` is the CPU of the row before.
  pub draw_rows : Heatmap F → ℕ → Option ℤ → List ℤ → SvgData → SvgData
  unfolding row_label h_line draw_cells
  draw_rows h row before [] drawn = drawn
  draw_rows h row before (src ∷ srcs) drawn = draw_rows h (suc row) (some src) srcs (
      draw_cells h row src 0 none h.cpu_ids (record drawn {
        row_labels = drawn.row_labels ++ row_label h row src ∷ [];
        h_lines =
            if new_socket h.cpu_to_socket before src
            then drawn.h_lines ++ h_line h row ∷ []
            else drawn.h_lines;
      }))

  selected : Heatmap F → ℤ → List ℤ
  unfolding lookup
  selected h vmid = elim (lookup vmid h.affinity) [ none ↦ [] | some cpus ↦ cpus ]

  -- The rows of the table from number `i` on, the first of them at `y`.
  table_from : Heatmap F → ℕ → ℕ → List ℤ → List AffinityRow
  unfolding selected
  table_from h i y [] = []
  table_from h i y (vmid ∷ vmids) =
      record {
        y = y;
        vmid = itoa vmid;
        cpus = join (codes ",") (map itoa (selected h vmid));
        line_y = y + 20;
        rect_y = y - 20;
        fill = if i % 2 == 1 then codes "#f9f9f9" else codes "white";
      }
      ∷ table_from h (suc i) (y + affinity_row_height) vmids

  draw_table : SliceSort ℤ → Heatmap F → SvgData → SvgData
  unfolding table_from
  draw_table sorting h drawn = record drawn {
    show_affinity = true;
    affinity_x = h.dims.padding_left + length h.cpu_ids * cell_size + affinity_table_gap;
    affinity_y = padding_top + 20;
    affinity_rows = table_from h 0 30 (sorting.sort ltb_ℤ (map (λ e. e.0) h.affinity));
  }

  start_data : Heatmap F → SvgData
  unfolding specs_text statistics_text
  start_data h = record {
    width = h.dims.width;
    height = h.dims.height;
    center_x = h.dims.width / 2;
    title = h.cpu_name;
    specs = specs_text h;
    stats = statistics_text f o h;
    row_labels = [];
    col_labels = [];
    h_lines = [];
    v_lines = [];
    cells = [];
    show_affinity = false;
    affinity_x = 0;
    affinity_y = 0;
    affinity_rows = [];
  }

  unfoldable pub draw : SliceSort ℤ → Heatmap F → SvgData
  unfolding start_data draw_rows draw_table
  draw sorting h =
      let drawn = draw_rows h 0 none h.cpu_ids (start_data h) in
      elim h.mode [ mode_default ↦ drawn | mode_affinity ↦ draw_table sorting h drawn ]

  unfoldable pub generate : SliceSort ℤ → Heatmap F → Result SvgError SvgData
  unfolding draw
  generate sorting h = if length h.rankings == 0 then err no_ranking_data else ok (draw sorting h)
