-- ===== src/Svg/Drawing/Grid.antt =====
-- What is drawn: the cell of each pair of CPUs, in its place, and how far the lines between sockets go.
use native.Mathlib.Nat.{suc-mul}
use proxmox_cpu_affinity.Base.{
  ℕ, zero, suc, ◌+◌, ◌-◌, ◌*◌, ◌<◌, ℤ, List, [], ◌∷◌, ◌++◌, length, length-append, append_assoc,
  append-nil, get_elem?, Option, none, some, All, ◌≡◌, refl, sym, ap, ◌∙◌, arith, ◌==◌, ◌&&◌,
  eq_of_some, ap₂,
}
use proxmox_cpu_affinity.CpuInfo.Floats.{Float64}
use proxmox_cpu_affinity.Svg.Types.{ColorFloat, Heatmap, SvgLine, SvgCell, SvgData}
use proxmox_cpu_affinity.Svg.Drawing.Bounds.{All-snoc}
use proxmox_cpu_affinity.Svg.Drawing.{new_socket, cell, v_line, draw_cell, draw_cells, draw_rows}

module _ {ℓ} {A : Type ℓ} where
  get_elem?-front :
      (xs ys : List A) (i : ℕ) → i < length xs → get_elem? (xs ++ ys) i ≡ get_elem? xs i
  get_elem?-front [] ys i h = elim h [ ]
  get_elem?-front (x ∷ xs) ys zero h = refl
  get_elem?-front (x ∷ xs) ys (suc i) h = get_elem?-front xs ys i (omega arith)

  get_elem?-back : (xs ys : List A) (i : ℕ) → get_elem? (xs ++ ys) (length xs + i) ≡ get_elem? ys i
  get_elem?-back [] ys i = ap (get_elem? ys) (omega arith)
  get_elem?-back (x ∷ xs) ys i =
      ap (get_elem? (x ∷ (xs ++ ys))) (suc_out (length xs)) ∙ get_elem?-back xs ys i
    where
      suc_out : (m : ℕ) → suc m + i ≡ suc (m + i)
      suc_out m = omega arith

  index_lt : (xs : List A) (i : ℕ) {x : A} → get_elem? xs i ≡ some x → i < length xs
  index_lt [] i q = cc
  index_lt (y ∷ xs) zero q = omega arith
  index_lt (y ∷ xs) (suc i) q = omega (arith, index_lt xs i q)

next_row : (i j : ℕ) {m n : ℕ} → m ≡ n → suc i * n + j ≡ m + (i * n + j)
next_row i j {n} e = omega (arith, e, suc-mul i n)

-- Where the lines between columns end.
abbrev pub EndsAt : ℕ → List SvgLine → Type 0
EndsAt y lines = All (λ l. l.y2 ≡ y) lines

module _ (f : Float64) (o : ColorFloat f) (h : Heatmap f.F) where
  -- The cells of a row, from a column on.
  row_cells : ℕ → ℤ → ℕ → List ℤ → List SvgCell
  row_cells row src col [] = []
  row_cells row src col (dst ∷ dsts) = cell f o h row src col dst ∷ row_cells row src (suc col) dsts

  -- The cells of all rows, from a row on.
  pub grid_cells : ℕ → List ℤ → List SvgCell
  unfolding row_cells
  grid_cells row [] = []
  grid_cells row (src ∷ srcs) = row_cells row src 0 h.cpu_ids ++ grid_cells (suc row) srcs

  draw_cells-cells :
      (row col : ℕ) (src : ℤ) (before : Option ℤ) (dsts : List ℤ) (p : SvgData)
      → (draw_cells f o h row src col before dsts p).cells ≡ p.cells ++ row_cells row src col dsts
  unfolding draw_cells draw_cell row_cells
  draw_cells-cells row col src before [] p = sym (append-nil p.cells)
  draw_cells-cells row col src before (dst ∷ dsts) p =
      draw_cells-cells row (suc col) src (some dst) dsts _ ∙ append_assoc p.cells _ _

  pub draw_rows-cells :
      (row : ℕ) (before : Option ℤ) (srcs : List ℤ) (p : SvgData)
      → (draw_rows f o h row before srcs p).cells ≡ p.cells ++ grid_cells row srcs
  unfolding draw_rows grid_cells
  draw_rows-cells row before [] p = sym (append-nil p.cells)
  draw_rows-cells row before (src ∷ srcs) p =
      draw_rows-cells (suc row) (some src) srcs _
      ∙ ap (λ cells. cells ++ grid_cells (suc row) srcs)
          (draw_cells-cells row 0 src none h.cpu_ids _)
      ∙ append_assoc p.cells _ _

  length-row_cells :
      (row col : ℕ) (src : ℤ) (dsts : List ℤ) → length (row_cells row src col dsts) ≡ length dsts
  unfolding row_cells
  length-row_cells row col src [] = refl
  length-row_cells row col src (dst ∷ dsts) = ap suc (length-row_cells row (suc col) src dsts)

  row_cells-get_elem? :
      (row col j : ℕ) (src dst : ℤ) (dsts : List ℤ)
      → get_elem? dsts j ≡ some dst
      → get_elem? (row_cells row src col dsts) j ≡ some (cell f o h row src (col + j) dst)
  unfolding row_cells
  row_cells-get_elem? row col j src dst [] q = cc
  row_cells-get_elem? row col zero src dst (d ∷ dsts) q =
      ap₂ (λ c e. some (cell f o h row src c e)) (omega arith) (eq_of_some q)
  row_cells-get_elem? row col (suc j) src dst (d ∷ dsts) q =
      row_cells-get_elem? row (suc col) j src dst dsts q
      ∙ ap (λ c. some (cell f o h row src c dst)) (omega arith)

  pub grid_cells-get_elem? :
      (row i j : ℕ) (src dst : ℤ) (srcs : List ℤ)
      → get_elem? srcs i ≡ some src
      → get_elem? h.cpu_ids j ≡ some dst
      → get_elem? (grid_cells row srcs) (i * length h.cpu_ids + j)
        ≡ some (cell f o h (row + i) src j dst)
  unfolding grid_cells
  grid_cells-get_elem? row i j src dst [] q r = cc
  grid_cells-get_elem? row zero j src dst (s ∷ srcs) q r =
      ap (get_elem? (row_cells row s 0 h.cpu_ids ++ grid_cells (suc row) srcs)) (omega arith)
      ∙ get_elem?-front (row_cells row s 0 h.cpu_ids) _ j
          (omega (arith, length-row_cells row 0 s h.cpu_ids, index_lt h.cpu_ids j r))
      ∙ row_cells-get_elem? row 0 j s dst h.cpu_ids r
      ∙ ap (λ c. some (cell f o h row s c dst)) (omega arith)
      ∙ ap₂ (λ k e. some (cell f o h k e j dst)) (omega arith) (eq_of_some q)
  grid_cells-get_elem? row (suc i) j src dst (s ∷ srcs) q r =
      ap (get_elem? (row_cells row s 0 h.cpu_ids ++ grid_cells (suc row) srcs))
        (next_row i j (length-row_cells row 0 s h.cpu_ids))
      ∙ get_elem?-back (row_cells row s 0 h.cpu_ids) _ (i * length h.cpu_ids + j)
      ∙ grid_cells-get_elem? (suc row) i j src dst srcs q r
      ∙ ap (λ k. some (cell f o h k src j dst)) (omega arith)

  pub length-grid_cells :
      (row : ℕ) (srcs : List ℤ) → length (grid_cells row srcs) ≡ length srcs * length h.cpu_ids
  unfolding grid_cells
  length-grid_cells row [] = omega arith
  length-grid_cells row (src ∷ srcs) =
      length-append (row_cells row src 0 h.cpu_ids) _
      ∙ omega (
        arith,
        length-row_cells row 0 src h.cpu_ids,
        length-grid_cells (suc row) srcs,
        suc-mul (length srcs) (length h.cpu_ids),
      )

  draw_cells-EndsAt :
      (row col : ℕ) (src : ℤ) (before : Option ℤ) (dsts : List ℤ) (p : SvgData)
      → EndsAt (h.dims.height - 20) p.v_lines
      → EndsAt (h.dims.height - 20) (draw_cells f o h row src col before dsts p).v_lines
  unfolding draw_cells draw_cell v_line
  draw_cells-EndsAt row col src before [] p e = e
  draw_cells-EndsAt row col src before (dst ∷ dsts) p e =
      draw_cells-EndsAt row (suc col) src (some dst) dsts _ (
        All-snoc (λ l. l.y2 ≡ h.dims.height - 20)
          (row == 0 && new_socket h.cpu_to_socket before dst) p.v_lines (v_line f o h col) e refl)

  pub draw_rows-EndsAt :
      (row : ℕ) (before : Option ℤ) (srcs : List ℤ) (p : SvgData)
      → EndsAt (h.dims.height - 20) p.v_lines
      → EndsAt (h.dims.height - 20) (draw_rows f o h row before srcs p).v_lines
  unfolding draw_rows
  draw_rows-EndsAt row before [] p e = e
  draw_rows-EndsAt row before (src ∷ srcs) p e =
      draw_rows-EndsAt (suc row) (some src) srcs _ (draw_cells-EndsAt row 0 src none h.cpu_ids _ e)
