-- ===== src/Svg/Drawing/Bounds.antt =====
-- Everything that is drawn is within the picture.
use proxmox_cpu_affinity.Base.{
  ℕ, suc, ◌+◌, ◌*◌, ◌≤◌, ◌==◌, ℤ, Bool, true, false, ◌&&◌, if◌then◌else◌, List, [], ◌∷◌, ◌++◌, map,
  length, length-map, Option, none, some, All, All-append, SliceSort, ◌≡◌, refl, arith, ◌∙◌, ltb_ℤ,
  length-perm, sym,
}
use proxmox_cpu_affinity.CpuInfo.Floats.{Float64}
use proxmox_cpu_affinity.Svg.Types.{
  ColorFloat, Mode, mode_default, mode_affinity, HeatmapDimensions, Heatmap, SvgLabel, SvgLine,
  SvgCell, AffinityRow, SvgData,
}
use proxmox_cpu_affinity.Svg.Heatmap.{padding_top, affinity_table_width, affinity_row_height}
use proxmox_cpu_affinity.Svg.Heatmap.Sizes.{IsSized}
use proxmox_cpu_affinity.Svg.Drawing.{
  new_socket, cell, col_label, v_line, row_label, h_line, draw_cell, draw_cells, draw_rows,
  table_from, draw_table, start_data, draw,
}

module _ (d : HeatmapDimensions) where
  abbrev pub LabelFits : SvgLabel → Type 0
  LabelFits l = (l.x ≤ d.width) × (l.y ≤ d.height)

  abbrev pub LineFits : SvgLine → Type 0
  LineFits l = (l.x1 ≤ l.x2) × (l.x2 ≤ d.width) × (l.y1 ≤ l.y2) × (l.y2 ≤ d.height)

  -- Right of the margin, and below the texts at the top.
  abbrev pub CellFits : SvgCell → Type 0
  CellFits c =
      (d.padding_left ≤ c.x)
      × (c.x + c.width ≤ d.width)
      × (padding_top ≤ c.y)
      × (c.y + c.height ≤ d.height)

  -- For a table whose top is at `top`.
  abbrev pub RowFits : ℕ → AffinityRow → Type 0
  RowFits top r = (top + r.rect_y + affinity_row_height ≤ d.height) × (top + r.line_y ≤ d.height)

  pub record GridFits (p : SvgData) : Type 0 where
    pub row_labels_fit : All LabelFits p.row_labels
    pub col_labels_fit : All LabelFits p.col_labels
    pub h_lines_fit : All LineFits p.h_lines
    pub v_lines_fit : All LineFits p.v_lines
    pub cells_fit : All CellFits p.cells

  pub record PictureFits (p : SvgData) : Type 0 where
    pub same_width : p.width ≡ d.width
    pub same_height : p.height ≡ d.height
    pub grid : GridFits p
    pub table :
        p.show_affinity ≡ true
        → (p.affinity_x + affinity_table_width ≤ d.width)
          × All (RowFits p.affinity_y) p.affinity_rows

-- What holds of all and of one more.
pub All-snoc {ℓ} :
    {A : Type ℓ} (P : A → Type 0) (b : Bool) (xs : List A) (x : A)
    → All P xs
    → P x
    → All P (if b then xs ++ x ∷ [] else xs)
All-snoc P true xs x hs h = All-append P xs (x ∷ []) hs (h, tt)
All-snoc P false xs x hs h = hs

module _ (f : Float64) (o : ColorFloat f) (h : Heatmap f.F) (k : ℕ)
    (v : IsSized (length h.cpu_ids) k h.mode h.dims) where
  draw_cell-GridFits :
      (row col : ℕ) (src : ℤ) (before : Option ℤ) (dst : ℤ) (p : SvgData)
      → suc row ≤ length h.cpu_ids
      → suc col ≤ length h.cpu_ids
      → GridFits h.dims p
      → GridFits h.dims (draw_cell f o h row src col before dst p)
  unfolding draw_cell cell col_label v_line
  draw_cell-GridFits row col src before dst p rle cle g = record {
    row_labels_fit = g.row_labels_fit;
    col_labels_fit =
        All-snoc (LabelFits h.dims) (row == 0) p.col_labels (col_label f o h col dst)
          g.col_labels_fit (omega (arith, v.wide), omega (arith, v.high));
    h_lines_fit = g.h_lines_fit;
    v_lines_fit =
        All-snoc (LineFits h.dims) (row == 0 && new_socket h.cpu_to_socket before dst) p.v_lines
          (v_line f o h col) g.v_lines_fit
          (omega arith, omega (arith, v.wide), omega (arith, v.high), omega arith);
    cells_fit =
        All-snoc (CellFits h.dims) true p.cells (cell f o h row src col dst) g.cells_fit
          (omega arith, omega (arith, v.wide), omega arith, omega (arith, v.high));
  }

  draw_cells-GridFits :
      (row col : ℕ) (src : ℤ) (before : Option ℤ) (dsts : List ℤ) (p : SvgData)
      → suc row ≤ length h.cpu_ids
      → col + length dsts ≤ length h.cpu_ids
      → GridFits h.dims p
      → GridFits h.dims (draw_cells f o h row src col before dsts p)
  unfolding draw_cells
  draw_cells-GridFits row col src before [] p rle cle g = g
  draw_cells-GridFits row col src before (dst ∷ dsts) p rle cle g =
      draw_cells-GridFits row (suc col) src (some dst) dsts _ rle (omega (arith, cle))
        (draw_cell-GridFits row col src before dst p rle (omega (arith, cle)) g)

  draw_rows-GridFits :
      (row : ℕ) (before : Option ℤ) (srcs : List ℤ) (p : SvgData)
      → row + length srcs ≤ length h.cpu_ids
      → GridFits h.dims p
      → GridFits h.dims (draw_rows f o h row before srcs p)
  unfolding draw_rows row_label h_line
  draw_rows-GridFits row before [] p le g = g
  draw_rows-GridFits row before (src ∷ srcs) p le g =
      draw_rows-GridFits (suc row) (some src) srcs _ (omega (arith, le)) (
        draw_cells-GridFits row 0 src none h.cpu_ids _ (omega (arith, le)) (omega arith) (record {
          row_labels_fit =
              All-snoc (LabelFits h.dims) true p.row_labels (row_label f o h row src)
                g.row_labels_fit (omega (arith, v.wide), omega (arith, le, v.high));
          col_labels_fit = g.col_labels_fit;
          h_lines_fit =
              All-snoc (LineFits h.dims) (new_socket h.cpu_to_socket before src) p.h_lines
                (h_line f o h row) g.h_lines_fit
                (omega arith, omega (arith, v.wide), omega arith, omega (arith, le, v.high));
          v_lines_fit = g.v_lines_fit;
          cells_fit = g.cells_fit;
        }))

  table_from-RowFits :
      (i y : ℕ) (vmids : List ℤ)
      → 20 ≤ y
      → padding_top + y + length vmids * affinity_row_height + 20 ≤ h.dims.height
      → All (RowFits h.dims (padding_top + 20)) (table_from f o h i y vmids)
  unfolding table_from
  table_from-RowFits i y [] le fits = tt
  table_from-RowFits i y (vmid ∷ vmids) le fits = (
    (omega (arith, fits), omega (arith, fits)),
    table_from-RowFits (suc i) (y + affinity_row_height) vmids (omega arith) (omega (arith, fits)),
  )

  draw_rows_header :
      (row : ℕ) (before : Option ℤ) (srcs : List ℤ) (p : SvgData)
      → ((draw_rows f o h row before srcs p).width ≡ p.width)
        × ((draw_rows f o h row before srcs p).height ≡ p.height)
        × ((draw_rows f o h row before srcs p).show_affinity ≡ p.show_affinity)
  unfolding draw_rows
  draw_rows_header row before [] p = (refl, refl, refl)
  draw_rows_header row before (src ∷ srcs) p =
      let (w, t, s) = draw_rows_header (suc row) (some src) srcs _ in
      let (w', t', s') = draw_cells_header row 0 src none h.cpu_ids _ in (w ∙ w', t ∙ t', s ∙ s')
    where
      draw_cells_header :
          (row col : ℕ) (src : ℤ) (before : Option ℤ) (dsts : List ℤ) (q : SvgData)
          → ((draw_cells f o h row src col before dsts q).width ≡ q.width)
            × ((draw_cells f o h row src col before dsts q).height ≡ q.height)
            × ((draw_cells f o h row src col before dsts q).show_affinity ≡ q.show_affinity)
      draw_cells_header row col src before [] q = (refl, refl, refl)
      draw_cells_header row col src before (dst ∷ dsts) q =
          draw_cells_header row (suc col) src (some dst) dsts _

  drawn : SvgData
  unfolding start_data
  drawn = draw_rows f o h 0 none h.cpu_ids (start_data f o h)

  grid_drawn : GridFits h.dims drawn
  unfolding start_data drawn
  grid_drawn = draw_rows-GridFits 0 none h.cpu_ids _ (omega arith) (record {
    row_labels_fit = tt;
    col_labels_fit = tt;
    h_lines_fit = tt;
    v_lines_fit = tt;
    cells_fit = tt;
  })

  pub draw-PictureFits :
      (sorting : SliceSort ℤ) → k ≡ length h.affinity → PictureFits h.dims (draw f o sorting h)
  unfolding draw start_data draw_table drawn
  draw-PictureFits sorting e = of_mode h.mode refl
    where
      ids : List ℤ
      ids = sorting.sort ltb_ℤ (map (λ entry. entry.0) h.affinity)

      ids_length : length ids ≡ k
      ids_length = length-perm (sorting.sort-perm ltb_ℤ _) ∙ length-map _ h.affinity ∙ sym e

      of_mode :
          (m : Mode)
          → h.mode ≡ m
          → PictureFits h.dims
              (elim m [ mode_default ↦ drawn | mode_affinity ↦ draw_table f o sorting h drawn ])
      of_mode mode_default q =
          let (w, t, s) = draw_rows_header 0 none h.cpu_ids (start_data f o h) in
          record { same_width = w; same_height = t; grid = grid_drawn; table = λ c. cc }
      of_mode mode_affinity q =
          let (w, t, s) = draw_rows_header 0 none h.cpu_ids (start_data f o h) in
          record {
            same_width = w;
            same_height = t;
            grid = record {
              row_labels_fit = grid_drawn.row_labels_fit;
              col_labels_fit = grid_drawn.col_labels_fit;
              h_lines_fit = grid_drawn.h_lines_fit;
              v_lines_fit = grid_drawn.v_lines_fit;
              cells_fit = grid_drawn.cells_fit;
            };
            table = λ c. (
              v.beside q,
              table_from-RowFits 0 30 ids (omega arith) (omega (arith, v.below q, ids_length)),
            );
          }
