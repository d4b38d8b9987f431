-- ===== src/Cli/Status/Tables.antt =====
-- The tables that cmd/cli/status.go prints.
use proxmox_cpu_affinity.Base.{
  ℤ, ltb_ℤ, List, [], ◌∷◌, ◌++◌, map, none, some, Bytes, codes, format_uint, itoa, join, lookup,
  SliceSort,
}
use proxmox_cpu_affinity.CpuInfo.Types.{Neighbor, CoreRanking}
use proxmox_cpu_affinity.CpuInfo.Summary.{TopologyStats}

module _ {F : Type 0} (show_cents : F → Bytes) where
  neighbor_row : CoreRanking F → Neighbor F → List Bytes
  neighbor_row r n =
      itoa r.cpu ∷ itoa n.cpu ∷ itoa n.socket ∷ itoa n.core ∷ show_cents n.latency_ns ∷ []

  neighbor_rows : List (CoreRanking F) → List (List Bytes)
  unfolding neighbor_row
  neighbor_rows [] = []
  neighbor_rows (r ∷ rs) = map (neighbor_row r) r.ranking ++ neighbor_rows rs

  unfoldable pub print_core_rankings : List (CoreRanking F) → List (List Bytes)
  unfolding neighbor_rows
  print_core_rankings rankings =
      (codes "Source"
        ∷ codes "Neighbor"
        ∷ codes "Socket"
        ∷ codes "Core"
        ∷ codes "Latency (ns)"
        ∷ [])
      ∷ (codes "------"
          ∷ codes "--------"
          ∷ codes "------"
          ∷ codes "----"
          ∷ codes "------------"
          ∷ [])
      ∷ neighbor_rows rankings

  unfoldable pub print_core_ranking_summary : TopologyStats F → List (List Bytes)
  print_core_ranking_summary stats =
      (codes "CPU Count:" ∷ format_uint stats.cpu_count ∷ [])
      ∷ (codes "Socket Count:" ∷ format_uint stats.socket_count ∷ [])
      ∷ ([] ∷ [])
      ∷ (codes "Metric" ∷ codes "Latency (ns)" ∷ [])
      ∷ (codes "------" ∷ codes "------------" ∷ [])
      ∷ (codes "Min (Best)" ∷ show_cents stats.min_latency_ns ∷ [])
      ∷ (codes "Max (Worst)" ∷ show_cents stats.max_latency_ns ∷ [])
      ∷ []

affinity_row : List (ℤ × List ℤ) → ℤ → List Bytes
unfolding lookup
affinity_row selections vmid =
    itoa vmid
    ∷ join (codes ",") (map itoa (elim (lookup vmid selections) [ none ↦ [] | some cpus ↦ cpus ]))
    ∷ []

unfoldable pub print_core_vm_affinity : SliceSort ℤ → List (ℤ × List ℤ) → List (List Bytes)
unfolding affinity_row
print_core_vm_affinity sorting selections =
    (codes "VMID" ∷ codes "Selected CPUs" ∷ [])
    ∷ (codes "----" ∷ codes "-------------" ∷ [])
    ∷ map (affinity_row selections) (sorting.sort ltb_ℤ (map (λ e. e.0) selections))
