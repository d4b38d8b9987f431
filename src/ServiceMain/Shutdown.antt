-- ===== src/ServiceMain/Shutdown.antt =====
-- The program as a whole: its log at any time, and what its end leaves behind.
use proxmox_cpu_affinity.Base.{
  ◌⊎◌, ◌&&◌, subst, refl, ◌≡◌, ◌≢◌, ℕ, Option, none, some, List, [], ◌∷◌, if_elim, if◌then◌else◌,
  not, arith, true, suc, false, All, sym, inl, inr, ◌⊎◌,
}
use proxmox_cpu_affinity.Config.{Config}
use proxmox_cpu_affinity.ServiceMain.{
  Daemon, Flags, Answers, Watchdog, file, running, exited, service_starts, comes, sighup, sigint,
  sigterm, serve, on_signal, shut_down, DaemonEvent, rotate, start_daemon, on_event, start_service,
  stop_controller, ProgramStatus, start_watchdog, stop_watchdog, close_file, fresh_daemon, override,
  open_log,
}
use proxmox_cpu_affinity.ServiceMain.Rotation.{
  IsLogging, IsLog, LoggerOf, to_stdout, to_file, on_event-IsLogging, close_file-same,
  open_log_keeps, open_log-IsLog, IsLog-logger, WasOpened,
}

abbrev pub IsOff : Option Watchdog → Type 0
IsOff none = Unit
IsOff (some w) = (w.stopped ≡ true) × (w.netlink_open ≡ false)

-- After the regular end, nothing of the program goes on.
pub IsStopped : Daemon → Type 0
IsStopped d =
    (d.status ≢ exited 0)
    ⊎ ((d.status ≡ exited 0) × (d.cancelled ≡ true) × (d.listening ≡ false) × IsOff d.watchdog)

running-IsStopped : (d : Daemon) → d.status ≡ running → IsStopped d
unfolding IsStopped
running-IsStopped d r = inl (λ e. cc)

failed-IsStopped : (d : Daemon) → d.status ≡ exited 1 → IsStopped d
unfolding IsStopped
failed-IsStopped d r = inl (λ e. cc)

start_daemon-Sound :
    (a : Answers) (flags : Flags) (cfg : Config)
    → IsLogging (start_daemon a flags cfg) × IsStopped (start_daemon a flags cfg)
unfolding start_daemon start_watchdog fresh_daemon
start_daemon-Sound a flags cfg =
    if_elim IsSound (not a.ranking_succeeds)
      (λ _. (
        record { log = log; logger = subst (LoggerOf d.opened) (sym keeps.0) tt },
        failed-IsStopped _ refl,
      ))
      λ _.
        if_elim IsSound (not a.scheduler_succeeds)
          (λ _. (record { log = log; logger = watched }, failed-IsStopped _ refl))
          (λ _. (record { log = log; logger = watched }, running-IsStopped _ keeps.1))
  where
    IsSound : Daemon → Type 0
    IsSound e = IsLogging e × IsStopped e

    fresh : Daemon
    fresh = fresh_daemon a (override flags cfg)

    d : Daemon
    d = open_log a flags fresh

    keeps : (d.watchdog ≡ none) × (d.status ≡ running)
    keeps = open_log_keeps a flags fresh

    log : IsLog d.log_f d.output d.open_files d.opened
    log = open_log-IsLog a flags fresh refl refl refl

    watched : LoggerOf d.opened (
        if (override flags cfg).cpu_hotplug_watchdog
        then some (start_watchdog a d.output)
        else none)
    watched =
        if_elim (LoggerOf d.opened) (override flags cfg).cpu_hotplug_watchdog
          (λ _. IsLog-logger log) (λ _. tt)

rotate-IsStopped : (a : Answers) (d : Daemon) → d.status ≡ running → IsStopped (rotate a d)
unfolding rotate
rotate-IsStopped a d r = of_log d.log_f
  where
    of_log :
        (l : Option ℕ)
        → IsStopped (elim l [
          | none ↦ d
          | some old ↦
              if a.can_open d.opened
              then record d {
                opened = suc d.opened;
                open_files = d.opened ∷ close_file old d.open_files;
                log_f = some d.opened;
                output = file d.opened;
              }
              else d
        ])
    of_log none = running-IsStopped d r
    of_log (some old) =
        if_elim IsStopped (a.can_open d.opened) (λ _. running-IsStopped _ r)
          (λ _. running-IsStopped d r)

shut_down-IsStopped : (d : Daemon) → IsStopped (shut_down d)
unfolding shut_down stop_controller stop_watchdog IsStopped
shut_down-IsStopped d = inr (refl, refl, refl, stopped d.watchdog)
  where
    stopped : (o : Option Watchdog) → IsOff (stop_controller o)
    stopped none = tt
    stopped (some w) = (refl, refl)

on_event-IsStopped :
    (a : Answers) (e : DaemonEvent) (d : Daemon) → d.status ≡ running → IsStopped (on_event a e d)
unfolding on_event on_signal shut_down start_service rotate
on_event-IsStopped a service_starts d r =
    if_elim IsStopped (a.socket_file_exists && not a.remove_succeeds) (λ _. failed-IsStopped _ refl)
      λ _.
        if_elim IsStopped (not a.listen_succeeds) (λ _. failed-IsStopped _ refl)
          λ _.
            if_elim IsStopped (not a.chmod_succeeds) (λ _. failed-IsStopped _ refl)
              (λ _. running-IsStopped _ r)
on_event-IsStopped a (comes sighup) d r = rotate-IsStopped a d r
on_event-IsStopped a (comes sigint) d r = shut_down-IsStopped d
on_event-IsStopped a (comes sigterm) d r = shut_down-IsStopped d

serve_lem :
    (a : Answers) (es : List DaemonEvent) (d : Daemon)
    → IsLogging d
    → IsStopped d
    → IsLogging (serve a es d) × IsStopped (serve a es d)
unfolding serve
serve_lem a [] d v w = (v, w)
serve_lem a (e ∷ es) d v w =
    of_status d.status refl (λ q.
      serve_lem a es (on_event a e d) (on_event-IsLogging a e d v) (on_event-IsStopped a e d q))
  where
    of_status :
        (s : ProgramStatus)
        → d.status ≡ s
        → (d.status ≡ running
            → IsLogging (serve a es (on_event a e d)) × IsStopped (serve a es (on_event a e d)))
        → IsLogging (elim s [ running ↦ serve a es (on_event a e d) | exited n ↦ d ])
          × IsStopped (elim s [ running ↦ serve a es (on_event a e d) | exited n ↦ d ])
    of_status running q rest = rest q
    of_status (exited n) q rest = (v, w)

-- Whatever the flags, the configuration, the signals and the answers of the system, at most one log
-- file is open at a time, and it is the one that the log goes to, or none is open and the log goes
-- to the standard output. When the program has ended with status 0, the context is cancelled, the
-- socket is closed, and so is the watchdog's, if there is one, whose reactor is stopped.
pub serve-IsLogging :
    (a : Answers) (flags : Flags) (cfg : Config) (es : List DaemonEvent)
    → IsLogging (serve a es (start_daemon a flags cfg))
      × IsStopped (serve a es (start_daemon a flags cfg))
serve-IsLogging a flags cfg es =
    let (v, w) = start_daemon-Sound a flags cfg in serve_lem a es (start_daemon a flags cfg) v w

-- When a signal has replaced the log file, the file that the watchdog's logger writes to, as it was
-- when the watchdog was made, is not open any more, if it was a file.
pub rotate-stale :
    (a : Answers) (flags : Flags) (cfg : Config) (es : List DaemonEvent) (old g : ℕ) (w : Watchdog)
    → let d = serve a es (start_daemon a flags cfg) in
      d.log_f ≡ some old
      → a.can_open d.opened ≡ true
      → d.watchdog ≡ some w
      → w.logger ≡ file g
      → ((on_signal a sighup d).watchdog ≡ some w)
        × All (λ f. f ≢ g) (on_signal a sighup d).open_files
unfolding on_signal
rotate-stale a flags cfg es old g w l c q r =
    let d = serve a es (start_daemon a flags cfg) in
    of_log d l c q (serve-IsLogging a flags cfg es).0.log (serve-IsLogging a flags cfg es).0.logger
  where
    of_log :
        (d : Daemon)
        → d.log_f ≡ some old
        → a.can_open d.opened ≡ true
        → d.watchdog ≡ some w
        → IsLog d.log_f d.output d.open_files d.opened
        → LoggerOf d.opened d.watchdog
        → ((rotate a d).watchdog ≡ some w) × All (λ f. f ≢ g) (rotate a d).open_files
    of_log d l c q (to_stdout n) h = cc
    of_log d l c q (to_file f n lt) h =
        if_elim {A = Daemon} (λ e. (e.watchdog ≡ some w) × All (λ x. x ≢ g) e.open_files)
          (a.can_open n)
          (λ _. (
            q,
            subst (λ files. All (λ x. x ≢ g) (n ∷ files)) (sym (close_file-same f))
                (
                  (λ e. absurd (omega (arith, e, subst (WasOpened n) r (subst (LoggerOf n) q h)))),
                  tt,
                ),
          ))
          (λ no. cc)
