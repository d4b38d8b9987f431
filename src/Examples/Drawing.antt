-- ===== src/Examples/Drawing.antt =====
-- The picture of the machine with three CPUs on two sockets, with three VMs placed.
use proxmox_cpu_affinity.Base.{
  ℕ, ◌+◌, ◌*◌, ◌/◌, ◌<◌, ℤ, pos, leb, List, [], ◌∷◌, length, get_elem?, some, codes, All, ok,
  insertion, insertion_sort, lookup, insert, ◌≡◌, refl, format_uint, arith,
}
use proxmox_cpu_affinity.Examples.Machine.{whole, ranking}
use proxmox_cpu_affinity.CpuInfo.Summary.{TopologyStats}
use proxmox_cpu_affinity.Svg.Types.{
  ColorFloat, Heatmap, mode_affinity, mode_default, SvgCell, SvgData,
}
use proxmox_cpu_affinity.Svg.Heatmap.{socket_of, new_heatmap, padding_top, cell_size}
use proxmox_cpu_affinity.Svg.Heatmap.Order.{IsArranged}
use proxmox_cpu_affinity.Svg.Drawing.{generate, draw, latency}
use proxmox_cpu_affinity.Svg.Drawing.Bounds.{PictureFits}
use proxmox_cpu_affinity.Svg.Drawing.Picture.{generate-PictureFits, generate-overlong}

-- Thousandths are rounded down.
abbrev floats : ColorFloat whole
floats = record {
  sub = λ a b. a;
  mul = λ a b. a * b;
  at_least = λ a b. leb b a;
  thousandths = λ n. n / 1000;
  truncate = pos;
  show_whole = format_uint;
  show_cents = format_uint;
}

abbrev summary : TopologyStats ℕ
summary = record {
  cpu_count = 3;
  socket_count = 2;
  min_latency_ns = 30;
  max_latency_ns = 90;
  median_latency_ns = 30;
  mean_latency_ns = 50;
}

abbrev placed : List (ℤ × List ℤ)
placed = (pos 100, pos 0 ∷ []) ∷ (pos 101, pos 1 ∷ []) ∷ (pos 102, pos 2 ∷ []) ∷ []

abbrev heatmap : Heatmap ℕ
heatmap = new_heatmap whole floats insertion ranking summary placed (codes "CPU") mode_affinity

-- With the cell of CPU 0 and CPU 2.
generate-PictureFits_example :
    IsArranged whole floats insertion ranking placed mode_affinity heatmap
    × ((p : SvgData) × (generate whole floats insertion heatmap ≡ ok p)
        × PictureFits heatmap.dims p
        × (length p.cells ≡ length ranking * length ranking)
        × ((c : SvgCell) × (get_elem? p.cells (0 * length heatmap.cpu_ids + 2) ≡ some c)
            × (c.x ≡ heatmap.dims.padding_left + 2 * cell_size)
            × (c.y ≡ padding_top + 0 * cell_size)
            × (c.text ≡ format_uint (latency whole floats heatmap (pos 0) (pos 2)))))
unfolding new_heatmap insertion_sort lookup insert socket_of
generate-PictureFits_example =
    generate-PictureFits whole floats insertion ranking summary placed (codes "CPU") mode_affinity 0
      2 (pos 0) (pos 2) (λ e. cc) refl refl

abbrev picture : SvgData
picture = draw whole floats insertion heatmap

picture_generated : generate whole floats insertion heatmap ≡ ok picture
unfolding generate new_heatmap
picture_generated = refl

-- CPUs 0 and 1 are on the first socket, so there is one line between columns, which ends 50 pixels
-- below the cells.
lines_test :
    (heatmap.cpu_ids ≡ pos 0 ∷ pos 1 ∷ pos 2 ∷ [])
    × (picture.v_lines
        ≡ record {
          x1 = heatmap.dims.padding_left + 80;
          y1 = 100;
          x2 = heatmap.dims.padding_left + 80;
          y2 = 270;
        }
          ∷ [])
unfolding new_heatmap draw insertion_sort lookup insert socket_of format_uint
lines_test = (refl, refl)

abbrev plain_picture : SvgData
plain_picture =
    draw whole floats insertion
      (new_heatmap whole floats insertion ranking summary placed (codes "CPU") mode_default)

plain_generated :
    generate whole floats insertion
      (new_heatmap whole floats insertion ranking summary placed (codes "CPU") mode_default)
    ≡ ok plain_picture
unfolding generate new_heatmap
plain_generated = refl

generate-overlong_example :
    All (λ l. l.y2 ≡ padding_top + length ranking * cell_size) plain_picture.v_lines
    × All (λ l. padding_top + length ranking * cell_size < l.y2) picture.v_lines
generate-overlong_example =
    generate-overlong whole floats insertion ranking summary placed (codes "CPU") plain_picture
      picture plain_generated picture_generated (omega arith)
