-- ===== src/Svg/Drawing/Picture.antt =====
-- `Generate` as a whole.
use proxmox_cpu_affinity.Base.{
  false, ap₂, length-perm, length-map, ℕ, ◌+◌, ◌-◌, ◌*◌, ◌≤◌, ◌<◌, ◌==◌, ℤ, Bool-cases,
  if◌then◌else◌, List, [], ◌∷◌, length, get_elem?, none, some, Bytes, All, Result, ok, err,
  SliceSort, ◌≡◌, ◌≢◌, refl, sym, ◌∙◌, ap, arith, inl, inr, nil_of_length, eq_of_ok, subst,
}
use proxmox_cpu_affinity.CpuInfo.Floats.{Float64}
use proxmox_cpu_affinity.CpuInfo.Types.{CoreRanking}
use proxmox_cpu_affinity.CpuInfo.Summary.{TopologyStats}
use proxmox_cpu_affinity.Svg.Types.{
  ColorFloat, Mode, mode_default, mode_affinity, Heatmap, SvgCell, SvgData,
}
use proxmox_cpu_affinity.Svg.Heatmap.{cell_size, padding_top, new_heatmap}
use proxmox_cpu_affinity.Svg.Heatmap.Sizes.{new_heatmap-IsSized, IsSized}
use proxmox_cpu_affinity.Svg.Heatmap.Order.{IsArranged, new_heatmap-IsArranged}
use proxmox_cpu_affinity.Svg.Drawing.{
  SvgError, no_ranking_data, latency, cell, draw_table, draw_rows, start_data, draw, generate,
}
use proxmox_cpu_affinity.Svg.Drawing.Bounds.{PictureFits, draw-PictureFits}
use proxmox_cpu_affinity.Svg.Drawing.Grid.{
  grid_cells, grid_cells-get_elem?, length-grid_cells, draw_rows-cells, EndsAt, draw_rows-EndsAt,
}

All-map {ℓ} :
    {A : Type ℓ} {P Q : A → Type 0} (xs : List A) → ((x : A) → P x → Q x) → All P xs → All Q xs
All-map [] g h = tt
All-map (x ∷ xs) g h = (g x h.0, All-map xs g h.1)

module _ (f : Float64) (o : ColorFloat f) (sorting : SliceSort ℤ) where
  generate-eq-ok :
      (h : Heatmap f.F) (p : SvgData) → generate f o sorting h ≡ ok p → draw f o sorting h ≡ p
  unfolding generate
  generate-eq-ok h p q = elim (Bool-cases (length h.rankings == 0)) [
    | inl e ↦ absurd (ne (sym (rw (e, generate) refl) ∙ q))
    | inr e ↦ eq_of_ok (sym (rw (e, generate) refl) ∙ q)
  ]
    where
      ne : ◌≢◌ {A = Result SvgError SvgData} (err no_ranking_data) (ok p)
      ne x = cc

  -- The cells, and the lines between columns.
  IsGrid : Heatmap f.F → SvgData → Type 0
  IsGrid h p = (p.cells ≡ grid_cells f o h 0 h.cpu_ids) × EndsAt (h.dims.height - 20) p.v_lines

  draw-IsGrid : (h : Heatmap f.F) → IsGrid h (draw f o sorting h)
  unfolding draw start_data draw_table IsGrid
  draw-IsGrid h = of_mode h.mode
    where
      drawn : SvgData
      drawn = draw_rows f o h 0 none h.cpu_ids (start_data f o h)

      of_mode :
          (m : Mode)
          → IsGrid h
              (elim m [ mode_default ↦ drawn | mode_affinity ↦ draw_table f o sorting h drawn ])
      of_mode mode_default =
          (draw_rows-cells f o h 0 none h.cpu_ids _, draw_rows-EndsAt f o h 0 none h.cpu_ids _ tt)
      of_mode mode_affinity =
          (draw_rows-cells f o h 0 none h.cpu_ids _, draw_rows-EndsAt f o h 0 none h.cpu_ids _ tt)

  -- The picture as a whole.
  pub generated-PictureFits :
      (rankings : List (CoreRanking f.F)) (summary : TopologyStats f.F)
      (affinity : List (ℤ × List ℤ)) (cpu_name : Bytes) (mode : Mode)
      → rankings ≢ []
      → let h = new_heatmap f o sorting rankings summary affinity cpu_name mode in
        IsArranged f o sorting rankings affinity mode h
        × ((p : SvgData) × (generate f o sorting h ≡ ok p)
            × PictureFits h.dims p
            × (length p.cells ≡ length rankings * length rankings))
  unfolding generate IsGrid
  generated-PictureFits rankings summary affinity cpu_name mode ne =
      let h = new_heatmap f o sorting rankings summary affinity cpu_name mode in
      let v = new_heatmap-IsSized f o sorting rankings summary affinity cpu_name mode in
      let a = new_heatmap-IsArranged f o sorting rankings summary affinity cpu_name mode in
      let n = length-perm a.all_cpus ∙ length-map (λ r. r.cpu) rankings in
      (
        a,
        (
          draw f o sorting h,
          subst
              (λ b.
                (if b then err no_ranking_data else ok (draw f o sorting h))
                ≡ ok (draw f o sorting h))
              (sym (filled h (λ e. ne (sym a.same_rankings ∙ e)))) refl,
          draw-PictureFits f o h (length h.affinity) v sorting refl,
          ap length (draw-IsGrid h).0 ∙ length-grid_cells f o h 0 h.cpu_ids ∙ ap₂ ◌*◌ n n,
        ),
      )
    where
      filled : (h : Heatmap f.F) → h.rankings ≢ [] → (length h.rankings == 0) ≡ false
      filled h ne = elim (Bool-cases (length h.rankings == 0)) [
        | inl e ↦ absurd (ne (nil_of_length h.rankings (ground arith)))
        | inr e ↦ e
      ]

  -- In a picture that is generated, the cell in row `i` and column `j` is in that row and column,
  -- and shows the latency between the `i`-th and the `j`-th CPU.
  pub generate-cell :
      (h : Heatmap f.F) (p : SvgData) (i j : ℕ) (src dst : ℤ)
      → generate f o sorting h ≡ ok p
      → get_elem? h.cpu_ids i ≡ some src
      → get_elem? h.cpu_ids j ≡ some dst
      → (c : SvgCell) × (get_elem? p.cells (i * length h.cpu_ids + j) ≡ some c)
        × (c.x ≡ h.dims.padding_left + j * cell_size)
        × (c.y ≡ padding_top + i * cell_size)
        × (c.text ≡ o.show_whole (latency f o h src dst))
  unfolding cell IsGrid
  generate-cell h p i j src dst q a b = (
    cell f o h i src j dst,
    ap (λ cells. get_elem? cells (i * length h.cpu_ids + j))
          (ap (λ picture. picture.cells) (sym (generate-eq-ok h p q)) ∙ (draw-IsGrid h).0)
        ∙ grid_cells-get_elem? f o h 0 i j src dst h.cpu_ids a b
        ∙ ap (λ row. some (cell f o h row src j dst)) (omega arith),
    refl,
    refl,
    refl,
  )

  -- Where the ranking is not empty, a picture is generated. The heat map's CPUs are those of the
  -- ranking, by socket and number; there are as many cells as pairs of them; the cell of the `i`-th
  -- and the `j`-th CPU stands in row `i` and column `j` and shows the latency that the heat map keeps
  -- for the two; and all cells, labels and lines are within the picture, and so are the rows of the
  -- table of VMs, if there is one.
  pub generate-PictureFits :
      (rankings : List (CoreRanking f.F)) (summary : TopologyStats f.F)
      (affinity : List (ℤ × List ℤ)) (cpu_name : Bytes) (mode : Mode) (i j : ℕ) (src dst : ℤ)
      → rankings ≢ []
      → get_elem? (new_heatmap f o sorting rankings summary affinity cpu_name mode).cpu_ids i
        ≡ some src
      → get_elem? (new_heatmap f o sorting rankings summary affinity cpu_name mode).cpu_ids j
        ≡ some dst
      → let h = new_heatmap f o sorting rankings summary affinity cpu_name mode in
        IsArranged f o sorting rankings affinity mode h
        × ((p : SvgData) × (generate f o sorting h ≡ ok p)
            × PictureFits h.dims p
            × (length p.cells ≡ length rankings * length rankings)
            × ((c : SvgCell) × (get_elem? p.cells (i * length h.cpu_ids + j) ≡ some c)
                × (c.x ≡ h.dims.padding_left + j * cell_size)
                × (c.y ≡ padding_top + i * cell_size)
                × (c.text ≡ o.show_whole (latency f o h src dst))))
  generate-PictureFits rankings summary affinity cpu_name mode i j src dst ne a b =
      let h = new_heatmap f o sorting rankings summary affinity cpu_name mode in
      let (arranged, (p, made, fits, size)) =
        generated-PictureFits rankings summary affinity cpu_name mode ne in
      (arranged, (p, made, fits, size, generate-cell h p i j src dst made a b))

  -- The lines between the columns of two sockets end at the last row of cells in the plain picture,
  -- but below it in the picture with a table of at least as many VMs as there are CPUs.
  pub generate-overlong :
      (rankings : List (CoreRanking f.F)) (summary : TopologyStats f.F)
      (affinity : List (ℤ × List ℤ)) (cpu_name : Bytes) (p q : SvgData)
      → generate f o sorting
          (new_heatmap f o sorting rankings summary affinity cpu_name mode_default)
        ≡ ok p
      → generate f o sorting
          (new_heatmap f o sorting rankings summary affinity cpu_name mode_affinity)
        ≡ ok q
      → length rankings ≤ length affinity
      → All (λ l. l.y2 ≡ padding_top + length rankings * cell_size) p.v_lines
        × All (λ l. padding_top + length rankings * cell_size < l.y2) q.v_lines
  unfolding IsGrid
  generate-overlong rankings summary affinity cpu_name p q made made' le = (
    All-map p.v_lines
        (λ l r. omega (
          arith,
          r,
          (sized mode_default).exact (arranged mode_default).same_mode,
          size mode_default,
        ))
        (subst (λ picture. EndsAt (height mode_default - 20) picture.v_lines)
          (generate-eq-ok (heatmap mode_default) p made) (draw-IsGrid (heatmap mode_default)).1),
    All-map q.v_lines
        (λ l r. omega (
          arith,
          r,
          le,
          (sized mode_affinity).below (arranged mode_affinity).same_mode,
          ap length (arranged mode_affinity).same_affinity,
        ))
        (subst (λ picture. EndsAt (height mode_affinity - 20) picture.v_lines)
          (generate-eq-ok (heatmap mode_affinity) q made') (draw-IsGrid (heatmap mode_affinity)).1),
  )
    where
      heatmap : Mode → Heatmap f.F
      heatmap mode = new_heatmap f o sorting rankings summary affinity cpu_name mode

      height : Mode → ℕ
      height mode = (heatmap mode).dims.height

      sized :
          (mode : Mode)
          → IsSized
              (length (heatmap mode).cpu_ids)
              (length (heatmap mode).affinity)
              (heatmap mode).mode
              (heatmap mode).dims
      sized mode = new_heatmap-IsSized f o sorting rankings summary affinity cpu_name mode

      arranged : (mode : Mode) → IsArranged f o sorting rankings affinity mode (heatmap mode)
      arranged mode = new_heatmap-IsArranged f o sorting rankings summary affinity cpu_name mode

      size : (mode : Mode) → length (heatmap mode).cpu_ids ≡ length rankings
      size mode = length-perm (arranged mode).all_cpus ∙ length-map (λ r. r.cpu) rankings
