-- ===== src/Cli/Status/Served.antt =====
-- The commands, when the service answers them.
use proxmox_cpu_affinity.Base.{
  ℤ, Bool-cases, true, false, none, ◌==◌, List, [], ◌∷◌, length, Option, some, Bytes, codes, lookup,
  Result, ok, err, SliceSort, ◌≡◌, ◌≢◌, ◌∙◌, ap, arith, nil_of_length, inl, inr, ◌⊎◌,
}
use proxmox_cpu_affinity.CpuInfo.Floats.{Float64}
use proxmox_cpu_affinity.CpuInfo.Types.{CoreRanking, CpuInfo, cache_empty}
use proxmox_cpu_affinity.CpuInfo.Selection.{get_selections}
use proxmox_cpu_affinity.CpuInfo.Summary.{TopologyStats, summarize_rankings}
use proxmox_cpu_affinity.Config.{Config}
use proxmox_cpu_affinity.Proxmox.{Host}
use proxmox_cpu_affinity.Scheduler.Mask.{CpuMask}
use proxmox_cpu_affinity.Scheduler.Processes.{ProcFs}
use proxmox_cpu_affinity.Service.{
  Payload, ranking, selections, cpu_information, answer_ranking, Failure, summary,
}
use proxmox_cpu_affinity.Cli.Status.Types.{
  Decoder, ClientError, response_unreadable, service_error, Exchange, failed, service_is_running,
  table, plain_request,
}
use proxmox_cpu_affinity.Cli.Status.Tables.{
  print_core_rankings, print_core_ranking_summary, print_core_vm_affinity,
}
use proxmox_cpu_affinity.Cli.Status.Commands.{
  Outcome, status_command, core_ranking_command, core_ranking_summary_command,
  core_vm_affinity_command, fetch_service_data, with_data,
}
use proxmox_cpu_affinity.Cli.Status.Encoding.{
  Encoding, ExactRankings, ExactStats, ExactSelections, finite_rankings, finite_stats,
}
use proxmox_cpu_affinity.Cli.Status.Wire.{
  served, wire, path, fetch_good, fetch_lost, fetch_bad, answer_filled, answer_empty,
  ranking_answer, summary_answer, selections_answer, status_served,
}

module _ (f : Float64) (d : Decoder f.F) (w : Encoding d) (show_cents : f.F → Bytes)
    (sorting : SliceSort f.F) (ids : SliceSort ℤ) (masks : CpuMask) (proc : ProcFs)
    (order : List ℤ → List ℤ) (h : Host) (socket : Bytes) (cfg : Config) (c : CpuInfo f.F) where
  abbrev pub service : Exchange d.Json
  service = served f d w show_cents sorting ids masks proc order h socket cfg c

  abbrev summary_of : List (CoreRanking f.F) → Payload f.F
  summary_of rankings = summary (summarize_rankings f sorting rankings)

  -- What a command shows that fails with the service's error.
  abbrev pub refused_with : Failure → Outcome f d show_cents service socket cfg
  refused_with e = (failed (service_error (w.describe e)) ∷ [], 1)

  abbrev socket_path : Bytes
  socket_path = path f d w show_cents sorting ids masks proc order h socket cfg c

  shown :
      {A : Type 0} (r : Result ClientError A) (a : A)
      (show : A → Outcome f d show_cents service socket cfg)
      → r ≡ ok a
      → with_data f d show_cents service socket cfg r show ≡ show a
  unfolding with_data
  shown r a show q = ap (λ x. with_data f d show_cents service socket cfg x show) q

  not_shown :
      {A : Type 0} (r : Result ClientError A) (e : ClientError)
      (show : A → Outcome f d show_cents service socket cfg)
      → r ≡ err e
      → with_data f d show_cents service socket cfg r show ≡ (failed e ∷ [], 1)
  unfolding with_data
  not_shown r e show q = ap (λ x. with_data f d show_cents service socket cfg x show) q

  good_ranking :
      {A : Type 0} {v : d.Json} {a : A}
      → c.cache ≢ []
      → (command : Bytes) (decode : d.Json → Option A) (show : List (CoreRanking f.F) → Payload f.F)
      → service socket_path (plain_request command) ≡ wire d w (some (answer_ranking show c))
      → w.encode (show c.cache) ≡ some v
      → decode v ≡ some a
      → fetch_service_data f d show_cents service socket cfg decode command ≡ ok a
  good_ranking {A} {v} {a} ne command decode show q e r =
      (fetch_good f d w show_cents sorting ids masks proc order h socket cfg c) A decode command
        (show c.cache) v a
        (q
          ∙ ap (λ answer. wire d w (some answer))
              ((answer_filled f d w show_cents sorting ids masks proc order h socket cfg c) show
                ne))
        e r

  lost_ranking :
      {A : Type 0}
      → c.cache ≢ []
      → (command : Bytes) (decode : d.Json → Option A) (show : List (CoreRanking f.F) → Payload f.F)
      → service socket_path (plain_request command) ≡ wire d w (some (answer_ranking show c))
      → w.encode (show c.cache) ≡ none
      → fetch_service_data f d show_cents service socket cfg decode command
        ≡ err response_unreadable
  lost_ranking {A} ne command decode show q e =
      (fetch_lost f d w show_cents sorting ids masks proc order h socket cfg c) A decode command
        (show c.cache)
        (q
          ∙ ap (λ answer. wire d w (some answer))
              ((answer_filled f d w show_cents sorting ids masks proc order h socket cfg c) show
                ne))
        e

  bad_ranking :
      {A : Type 0}
      → c.cache ≡ []
      → (command : Bytes) (decode : d.Json → Option A) (show : List (CoreRanking f.F) → Payload f.F)
      → service socket_path (plain_request command) ≡ wire d w (some (answer_ranking show c))
      → fetch_service_data f d show_cents service socket cfg decode command
        ≡ err (service_error (w.describe (cpu_information cache_empty)))
  bad_ranking {A} e command decode show q =
      (fetch_bad f d w show_cents sorting ids masks proc order h socket cfg c) A decode command
        (cpu_information cache_empty)
        (q
          ∙ ap (λ answer. wire d w (some answer))
              ((answer_empty f d w show_cents sorting ids masks proc order h socket cfg c) show e))

  -- What a command shows where the service could not write its answer.
  abbrev pub lost : Outcome f d show_cents service socket cfg
  lost = (failed response_unreadable ∷ [], 1)

  abbrev pub stats : TopologyStats f.F
  stats = summarize_rankings f sorting c.cache

  abbrev pub ShowsRanking : Outcome f d show_cents service socket cfg → Type 0
  ShowsRanking o = core_ranking_command f d show_cents service socket cfg false ≡ o

  abbrev pub ShowsSummary : Outcome f d show_cents service socket cfg → Type 0
  ShowsSummary o = core_ranking_summary_command f d show_cents service socket cfg false ≡ o

  -- What is shown of the ranking and of the summary, each of which is lost where one of its
  -- latencies is not a finite number, or the error instead of both.
  abbrev pub RankingShown : Type 0
  RankingShown =
      ((c.cache ≢ [])
        × (((finite_rankings w.finite c.cache ≡ true)
              × ShowsRanking (table (print_core_rankings show_cents c.cache) ∷ [], 0))
            ⊎ ((finite_rankings w.finite c.cache ≡ false) × ShowsRanking lost))
        × (((finite_stats w.finite stats ≡ true)
              × ShowsSummary (table (print_core_ranking_summary show_cents stats) ∷ [], 0))
            ⊎ ((finite_stats w.finite stats ≡ false) × ShowsSummary lost)))
      ⊎ ((c.cache ≡ [])
          × ShowsRanking (refused_with (cpu_information cache_empty))
          × ShowsSummary (refused_with (cpu_information cache_empty)))

  abbrev pub SelectionsShown : Type 0
  SelectionsShown =
      (n : List (ℤ × List ℤ)) × ((key : ℤ) → lookup key n ≡ lookup key (get_selections c))
      × (core_vm_affinity_command f d show_cents service socket cfg ids false
          ≡ (table (print_core_vm_affinity ids n) ∷ [], 0))

  ranking_shown :
      c.cache ≢ []
      → ExactRankings c.cache
      → ((finite_rankings w.finite c.cache ≡ true)
          × ShowsRanking (table (print_core_rankings show_cents c.cache) ∷ [], 0))
        ⊎ ((finite_rankings w.finite c.cache ≡ false) × ShowsRanking lost)
  unfolding core_ranking_command with_data
  ranking_shown ne exact =
      let answer = ranking_answer f d w show_cents sorting ids masks proc order h socket cfg c in
      elim (Bool-cases (finite_rankings w.finite c.cache)) [
        | inl q ↦
            let (v, e, r) = w.rankings_read c.cache q exact in
            inl (
              q,
              shown _ _ _ (good_ranking ne (codes "core-ranking") d.rankings ranking answer e r),
            )
        | inr q ↦ inr (
          q,
          not_shown _ _ _ (
              lost_ranking ne (codes "core-ranking") d.rankings ranking answer
                (w.rankings_refused c.cache q)),
        )
      ]

  summary_shown :
      c.cache ≢ []
      → ExactStats stats
      → ((finite_stats w.finite stats ≡ true)
          × ShowsSummary (table (print_core_ranking_summary show_cents stats) ∷ [], 0))
        ⊎ ((finite_stats w.finite stats ≡ false) × ShowsSummary lost)
  unfolding core_ranking_summary_command with_data
  summary_shown ne exact =
      let answer = summary_answer f d w show_cents sorting ids masks proc order h socket cfg c in
      elim (Bool-cases (finite_stats w.finite stats)) [
        | inl q ↦
            let (v, e, r) = w.stats_read stats q exact in
            inl (
              q,
              shown _ _ _
                  (good_ranking ne (codes "core-ranking-summary") d.stats summary_of answer e r),
            )
        | inr q ↦ inr (
          q,
          not_shown _ _ _ (
              lost_ranking ne (codes "core-ranking-summary") d.stats summary_of answer
                (w.stats_refused stats q)),
        )
      ]

  unranked :
      c.cache ≡ []
      → ShowsRanking (refused_with (cpu_information cache_empty))
        × ShowsSummary (refused_with (cpu_information cache_empty))
  unfolding core_ranking_command core_ranking_summary_command with_data
  unranked e = (
    not_shown _ _ _ (
        bad_ranking e (codes "core-ranking") d.rankings ranking
          (ranking_answer f d w show_cents sorting ids masks proc order h socket cfg c)),
    not_shown _ _ _ (
        bad_ranking e (codes "core-ranking-summary") d.stats summary_of
          (summary_answer f d w show_cents sorting ids masks proc order h socket cfg c)),
  )

  -- Against a running service, `status` finds it running; `core-ranking` and `core-ranking-summary`
  -- show the service's ranking and the summary of it, or the service's error while it has no
  -- ranking, or that the response cannot be read where a latency in it is not a finite number; and
  -- `core-vm-affinity` shows, by VM number, a map with the entries of the service's selections. The
  -- numbers of CPUs, sockets and cores are within 2 ^ 53.
  pub commands_served :
      ExactRankings c.cache
      → ExactStats (summarize_rankings f sorting c.cache)
      → ExactSelections (get_selections c)
      → (status_command f d show_cents service socket cfg ≡ (service_is_running ∷ [], 0))
        × RankingShown
        × SelectionsShown
  unfolding core_vm_affinity_command with_data
  commands_served exact exact_stats exact_selections =
      let (n, v, written, read, same) = w.selections_read (get_selections c) exact_selections in
      (
        (status_served f d w show_cents sorting ids masks proc order h socket cfg c),
        elim (Bool-cases (length c.cache == 0)) [
          | inl q ↦
              let empty = nil_of_length c.cache (ground arith) in
              let (no_ranking, no_summary) = unranked empty in inr (empty, no_ranking, no_summary)
          | inr q ↦
              let filled : c.cache ≢ [] = λ e. absurd (ground (arith, ap length e)) in
              inl (filled, ranking_shown filled exact, summary_shown filled exact_stats)
        ],
        (
          n,
          same,
          shown _ _ _ (
              (fetch_good f d w show_cents sorting ids masks proc order h socket cfg c) _
                d.selections (codes "core-vm-affinity") (selections (get_selections c)) v n
                (selections_answer f d w show_cents sorting ids masks proc order h socket cfg c)
                written read),
        ),
      )
