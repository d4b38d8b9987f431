-- ===== src/Svg/Heatmap/Sizes.antt =====
-- The size of the picture.
use proxmox_cpu_affinity.Base.{
  ℕ, ◌+◌, ◌*◌, ◌≤◌, ltb, ℤ, Bool-cases, List, length, Bytes, SliceSort, ◌≡◌, ◌⊎◌, refl, arith, inl,
  inr, pos,
}
use proxmox_cpu_affinity.CpuInfo.Floats.{Float64}
use proxmox_cpu_affinity.CpuInfo.Types.{CoreRanking}
use proxmox_cpu_affinity.CpuInfo.Summary.{TopologyStats}
use proxmox_cpu_affinity.Svg.Types.{
  ColorFloat, Mode, mode_default, mode_affinity, HeatmapDimensions, Heatmap,
}
use proxmox_cpu_affinity.Svg.Heatmap.{
  cell_size, padding_top, base_padding_left, affinity_table_gap, affinity_table_width,
  affinity_row_height, plain_dimensions, with_table, calculate_dimensions, new_heatmap,
  prepare_data, start_heatmap,
}

-- Room for `n` rows and columns, and for the table of `k` VMs where there is one.
pub record IsSized (n k : ℕ) (mode : Mode) (d : HeatmapDimensions) : Type 0 where
  pub left : base_padding_left ≤ d.padding_left
  pub wide : d.padding_left + n * cell_size + 20 ≤ d.width
  pub high : padding_top + n * cell_size + 20 ≤ d.height
  pub exact : mode ≡ mode_default → d.height ≡ padding_top + n * cell_size + 20
  pub beside :
      mode ≡ mode_affinity
      → d.padding_left + n * cell_size + affinity_table_gap + affinity_table_width ≤ d.width
  pub below : mode ≡ mode_affinity → padding_top + 70 + k * affinity_row_height ≤ d.height

pub Mode-cases : (m : Mode) → (m ≡ mode_default) ⊎ (m ≡ mode_affinity)
Mode-cases mode_default = inl refl
Mode-cases mode_affinity = inr refl

plain-IsSized : (n k text : ℕ) → IsSized n k mode_default (plain_dimensions n text)
unfolding plain_dimensions
plain-IsSized n k text = elim (Bool-cases (ltb (base_padding_left + n * cell_size + 20) text)) [
  | inl q ↦
      rw (q, plain_dimensions)
        (record {
          left = omega arith;
          wide = ground arith;
          high = omega arith;
          exact = λ e. refl;
          beside = λ e. cc;
          below = λ e. cc;
        })
  | inr q ↦
      rw (q, plain_dimensions)
        (record {
          left = omega arith;
          wide = omega arith;
          high = omega arith;
          exact = λ e. refl;
          beside = λ e. cc;
          below = λ e. cc;
        })
]

table-IsSized :
    (n k : ℕ) (d : HeatmapDimensions)
    → IsSized n k mode_default d
    → IsSized n k mode_affinity (with_table k d)
unfolding with_table
table-IsSized n k d v = record {
  left = v.left;
  wide = omega (arith, v.wide);
  high = ground (arith, v.high);
  exact = λ e. cc;
  beside = λ e. omega (arith, v.wide);
  below = λ e. ground arith;
}

module _ (f : Float64) (o : ColorFloat f) where
  calculate_dimensions-IsSized :
      (h : Heatmap f.F)
      → IsSized (length h.cpu_ids) (length h.affinity) h.mode (calculate_dimensions f o h)
  unfolding calculate_dimensions
  calculate_dimensions-IsSized h = elim (Mode-cases h.mode) [
    | inl q ↦ rw (q, calculate_dimensions) (plain-IsSized _ _ _)
    | inr q ↦ rw (q, calculate_dimensions) (table-IsSized _ _ _ (plain-IsSized _ _ _))
  ]

  pub new_heatmap-IsSized :
      (sorting : SliceSort ℤ) (rankings : List (CoreRanking f.F)) (summary : TopologyStats f.F)
      (affinity : List (ℤ × List ℤ)) (cpu_name : Bytes) (mode : Mode)
      → let h = new_heatmap f o sorting rankings summary affinity cpu_name mode in
        IsSized (length h.cpu_ids) (length h.affinity) h.mode h.dims
  unfolding new_heatmap
  new_heatmap-IsSized sorting rankings summary affinity cpu_name mode =
      calculate_dimensions-IsSized (
        prepare_data sorting (f.of_int (pos 0))
          (start_heatmap rankings summary affinity cpu_name mode))
