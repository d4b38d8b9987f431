-- ===== src/Config/Adaptive.antt =====
-- Larger machines are measured with less effort.
use proxmox_cpu_affinity.Base.{ℕ, ◌≤◌, ◌<◌, arith}
use proxmox_cpu_affinity.Config.{adaptive_cpu_info_parameters}

-- With more CPUs neither the rounds nor the iterations grow, and there is always at least one of
-- each.
pub adaptive_cpu_info_parameters-antitone :
    (m n : ℕ)
    → m ≤ n
    → ((adaptive_cpu_info_parameters n).0 ≤ (adaptive_cpu_info_parameters m).0)
      × ((adaptive_cpu_info_parameters n).1 ≤ (adaptive_cpu_info_parameters m).1)
      × (0 < (adaptive_cpu_info_parameters n).0)
      × (0 < (adaptive_cpu_info_parameters n).1)
unfolding adaptive_cpu_info_parameters
adaptive_cpu_info_parameters-antitone m n h = ground arith
