-- ===== src/Examples/Asking.antt =====
-- The commands of `status` against a service that has ranked the machine's CPUs and placed a VM.
use proxmox_cpu_affinity.Base.{
  ℤ, pos, Bool, true, false, List, [], ◌∷◌, Option, none, some, codes, format_uint, insertion, ◌≡◌,
  refl, ℕ, ltb, ◌^◌, insert, if◌then◌else◌, arith,
}
use proxmox_cpu_affinity.Examples.Machine.{whole, ranking, list_mask, proc, host}
use proxmox_cpu_affinity.CpuInfo.Types.{CoreRanking, CpuInfo}
use proxmox_cpu_affinity.CpuInfo.Selection.{get_selections}
use proxmox_cpu_affinity.CpuInfo.Summary.{TopologyStats, summarize_rankings}
use proxmox_cpu_affinity.Config.{Config}
use proxmox_cpu_affinity.Service.{Payload, pong, ranking as ranking_data, summary, selections}
use proxmox_cpu_affinity.Cli.Status.Types.{Decoder, service_is_running}
use proxmox_cpu_affinity.Cli.Status.Commands.{status_command}
use proxmox_cpu_affinity.Cli.Status.Encoding.{
  Encoding, finite_rankings, finite_stats, ExactRankings, ExactStats, ExactSelections, exact_int,
}
use proxmox_cpu_affinity.Cli.Status.Wire.{served}
use proxmox_cpu_affinity.Cli.Status.Served.{commands_served, RankingShown, SelectionsShown}

-- A JSON value is a payload, or null.
abbrev Json : Type 0
Json = Option (Payload ℕ)

abbrev pong_of : Json → Bool
pong_of (some pong) = true
pong_of _ = false

abbrev rankings_of : Json → Option (List (CoreRanking ℕ))
rankings_of (some (ranking_data rs)) = some rs
rankings_of _ = none

abbrev stats_of : Json → Option (TopologyStats ℕ)
stats_of (some (summary s)) = some s
stats_of _ = none

abbrev selections_of : Json → Option (List (ℤ × List ℤ))
selections_of (some (selections m)) = some m
selections_of _ = none

abbrev decoder : Decoder ℕ
decoder = record {
  Json = Json;
  null = none;
  is_pong = pong_of;
  rankings = rankings_of;
  stats = stats_of;
  selections = selections_of;
}

-- A latency of 10 ^ 18 stands for an infinite one.
abbrev is_finite : ℕ → Bool
is_finite n = ltb n (10 ^ 18)

abbrev encoded : Payload ℕ → Option Json
encoded (ranking_data rs) =
    if finite_rankings is_finite rs then some (some (ranking_data rs)) else none
encoded (summary s) = if finite_stats is_finite s then some (some (summary s)) else none
encoded p = some (some p)

abbrev encoding : Encoding decoder
encoding = record {
  encode = encoded;
  describe = λ e. codes "error";
  finite = is_finite;
  pong_read = (some pong, refl, refl);
  rankings_read = λ rs q e. (some (ranking_data rs), rw q, refl);
  rankings_refused = λ rs q. rw q;
  stats_read = λ s q e. (some (summary s), rw q, refl);
  stats_refused = λ s q. rw q;
  selections_read = λ m e. (m, some (selections m), refl, refl, λ key. refl);
}

abbrev config : Config
config = record {
  log_level = [];
  log_file = [];
  socket_file = codes "/var/run/proxmox-cpu-affinity.sock";
  rounds = pos 10;
  iterations = pos 1000;
  socket_retry = pos 10;
  socket_sleep = pos 10;
  socket_timeout = pos 30;
  socket_ping_on_pre_start = true;
  cpu_hotplug_watchdog = true;
}

abbrev state : CpuInfo ℕ
state = record { cache = ranking; last_index = 1; selections = (pos 100, pos 1 ∷ pos 2 ∷ []) ∷ [] }

commands_served_example :
    (status_command whole decoder format_uint
        (served whole decoder encoding format_uint insertion insertion list_mask proc
          (λ xs. xs)
          host
          []
          config
          state)
        []
        config
      ≡ (service_is_running ∷ [], 0))
    × RankingShown whole decoder encoding format_uint insertion insertion list_mask proc
        (λ xs. xs)
        host
        []
        config
        state
    × SelectionsShown whole decoder encoding format_uint insertion insertion list_mask proc
        (λ xs. xs)
        host
        []
        config
        state
unfolding ExactRankings ExactStats ExactSelections exact_int summarize_rankings insert
    get_selections
commands_served_example =
    commands_served whole decoder encoding format_uint insertion insertion list_mask proc (λ xs. xs)
      host [] config state
      (
        (refl, ((refl, refl, refl), ((refl, refl, refl), tt))),
        (
          (refl, ((refl, refl, refl), ((refl, refl, refl), tt))),
          ((refl, ((refl, refl, refl), ((refl, refl, refl), tt))), tt),
        ),
      )
      (omega arith, omega arith) ((refl, (refl, tt)), tt)
