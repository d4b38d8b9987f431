-- ===== src/Svg/Color.antt =====
-- pkg/svg/color.go: the color of a cell.
use proxmox_cpu_affinity.Base.{ℕ, pos, ◌&&◌, if◌then◌else◌, List, [], ◌∷◌, ◌++◌, Bytes, codes, itoa}
use proxmox_cpu_affinity.CpuInfo.Floats.{Float64}
use proxmox_cpu_affinity.Svg.Types.{ColorFloat}

pub record Rgba (F : Type 0) : Type 0 where
  pub r : F
  pub g : F
  pub b : F
  pub a : F

-- One of `stops`.
pub record Stop (F : Type 0) : Type 0 where
  pub val : F
  pub col : Rgba F

module _ (f : Float64) (o : ColorFloat f) where
  open f use {F, of_int, add, div, less}
  open o use {sub, mul, at_least, thousandths, truncate}

  -- `String`.
  pub show_rgb : Rgba F → Bytes
  show_rgb c =
      codes "rgb("
      ++ itoa (truncate c.r)
      ++ codes ","
      ++ itoa (truncate c.g)
      ++ codes ","
      ++ itoa (truncate c.b)
      ++ codes ")"

  abbrev whole : ℕ → F
  whole n = of_int (pos n)

  stop : ℕ → ℕ → ℕ → ℕ → Stop F
  stop val r g b = record {
    val = thousandths val;
    col = record { r = whole r; g = whole g; b = whole b; a = whole 1 };
  }

  stops : List (Stop F)
  unfolding stop
  stops =
      stop 0 49 54 149
      ∷ stop 250 116 173 209
      ∷ stop 500 255 255 191
      ∷ stop 750 253 174 97
      ∷ stop 1000 215 48 39
      ∷ []

  -- `c1`, `c2`, `t1` and `t2`, which are zero if no segment holds `t`.
  no_segment : Stop F × Stop F
  no_segment =
      let zero_stop : Stop F = record {
        val = whole 0;
        col = record { r = whole 0; g = whole 0; b = whole 0; a = whole 0 };
      } in
      (zero_stop, zero_stop)

  find_segment : F → List (Stop F) → Stop F × Stop F
  unfolding no_segment
  find_segment t [] = no_segment
  find_segment t (s ∷ []) = no_segment
  find_segment t (s ∷ s' ∷ rest) =
      let later = find_segment t (s' ∷ rest) in
      if at_least t s.val && at_least s'.val t then (s, s') else later

  clamp : F → F
  clamp t =
      let low = if less t (whole 0) then whole 0 else t in
      if less (whole 1) low then whole 1 else low

  interpolate : F → F → F → F
  interpolate k from to = add from (mul k (sub to from))

  blend : F → Stop F × Stop F → Rgba F
  unfolding interpolate
  blend t (s1, s2) =
      let k = div (sub t s1.val) (sub s2.val s1.val) in
      record {
        r = interpolate k s1.col.r s2.col.r;
        g = interpolate k s1.col.g s2.col.g;
        b = interpolate k s1.col.b s2.col.b;
        a = interpolate k s1.col.a s2.col.a;
      }

  luminance : Rgba F → F
  luminance c =
      add (add (mul (thousandths 299) c.r) (mul (thousandths 587) c.g)) (mul (thousandths 114) c.b)

  text_color : Rgba F → Bytes
  unfolding luminance
  text_color c = if less (luminance c) (whole 128) then codes "white" else codes "black"

  pub calculate_cell_color : F → Rgba F × Bytes
  unfolding clamp find_segment stops blend text_color
  calculate_cell_color t =
      let c = blend (clamp t) (find_segment (clamp t) stops) in (c, text_color c)
