-- ===== src/ServiceMain/Rotation.antt =====
-- The log file while the program runs.
use proxmox_cpu_affinity.Base.{
  ◌&&◌, subst, ℕ, suc, ◌<◌, not, List, [], ◌∷◌, Option, none, some, ◌≡◌, refl, sym, arith, if_elim,
  ==_iff, subst,
}
use proxmox_cpu_affinity.ServiceMain.{
  Flags, Answers, Output, stdout, file, Watchdog, Daemon, open_log, start_service, sighup, sigint,
  sigterm, rotate, shut_down, on_signal, DaemonEvent, service_starts, comes, on_event, close_file,
  stop_controller, stop_watchdog,
}

-- The output of the log and the open files belong together: no file is open that is not the output.
pub data IsLog : Option ℕ → Output → List ℕ → ℕ → Type 0 where
  to_stdout : (n : ℕ) → IsLog none stdout [] n
  to_file : (f n : ℕ) → f < n → IsLog (some f) (file f) (f ∷ []) n

-- An output that is a file of the log was opened before.
abbrev pub WasOpened : ℕ → Output → Type 0
WasOpened n stdout = Unit
WasOpened n (file g) = g < n

abbrev pub LoggerOf : ℕ → Option Watchdog → Type 0
LoggerOf n none = Unit
LoggerOf n (some w) = WasOpened n w.logger

pub record IsLogging (d : Daemon) : Type 0 where
  pub log : IsLog d.log_f d.output d.open_files d.opened
  pub logger : LoggerOf d.opened d.watchdog

pub close_file-same : (f : ℕ) → close_file f (f ∷ []) ≡ []
unfolding close_file
close_file-same f = rw ((==_iff f f).1 refl) refl

WasOpened-suc : (o : Output) (n : ℕ) → WasOpened n o → WasOpened (suc n) o
WasOpened-suc stdout n h = tt
WasOpened-suc (file g) n h = omega (arith, h)

LoggerOf-suc : (o : Option Watchdog) (n : ℕ) → LoggerOf n o → LoggerOf (suc n) o
LoggerOf-suc none n h = h
LoggerOf-suc (some w) n h = WasOpened-suc w.logger n h

rotate_lem :
    (a : Answers) (d : Daemon)
    → IsLog d.log_f d.output d.open_files d.opened
    → LoggerOf d.opened d.watchdog
    → IsLogging (rotate a d)
unfolding rotate
rotate_lem a d (to_stdout n) l = record { log = to_stdout n; logger = l }
rotate_lem a d (to_file f n lt) l =
    if_elim IsLogging (a.can_open d.opened)
      (λ q. record {
        log =
            subst (λ rest. IsLog (some n) (file n) (n ∷ rest) (suc n)) (sym (close_file-same f))
              (to_file n (suc n) (omega arith));
        logger = LoggerOf-suc d.watchdog d.opened l;
      })
      (λ q. record { log = to_file f n lt; logger = l })

pub LoggerOf-stopped : (n : ℕ) (o : Option Watchdog) → LoggerOf n o → LoggerOf n (stop_controller o)
unfolding stop_controller stop_watchdog
LoggerOf-stopped n none h = h
LoggerOf-stopped n (some w) h = h

pub on_event-IsLogging :
    (a : Answers) (e : DaemonEvent) (d : Daemon) → IsLogging d → IsLogging (on_event a e d)
unfolding on_event on_signal shut_down start_service
on_event-IsLogging a service_starts d v =
    if_elim IsLogging (a.socket_file_exists && not a.remove_succeeds)
      (λ _. record { log = v.log; logger = v.logger })
      λ _.
        if_elim IsLogging (not a.listen_succeeds) (λ _. record { log = v.log; logger = v.logger })
          λ _.
            if_elim IsLogging (not a.chmod_succeeds)
              (λ _. record { log = v.log; logger = v.logger })
              (λ _. record { log = v.log; logger = v.logger })
on_event-IsLogging a (comes sighup) d v = rotate_lem a d v.log v.logger
on_event-IsLogging a (comes sigint) d v = record {
  log = v.log;
  logger = LoggerOf-stopped d.opened d.watchdog v.logger;
}
on_event-IsLogging a (comes sigterm) d v = record {
  log = v.log;
  logger = LoggerOf-stopped d.opened d.watchdog v.logger;
}

-- The logger of a watchdog that starts now.
pub IsLog-logger :
    {l : Option ℕ} {o : Output} {files : List ℕ} {n : ℕ} → IsLog l o files n → WasOpened n o
IsLog-logger (to_stdout n) = tt
IsLog-logger (to_file f n lt) = lt

pub open_log-IsLog :
    (a : Answers) (flags : Flags) (d : Daemon)
    → d.log_f ≡ none
    → d.output ≡ stdout
    → d.open_files ≡ []
    → let e = open_log a flags d in IsLog e.log_f e.output e.open_files e.opened
unfolding open_log
open_log-IsLog a flags d l o r =
    if_elim HasLog (not flags.to_stdout)
      (λ _.
        if_elim HasLog (a.can_open d.opened)
          (λ _.
            subst (λ files. IsLog (some d.opened) (file d.opened) (d.opened ∷ files) (suc d.opened))
              (sym r) (to_file d.opened (suc d.opened) (omega arith)))
          (λ _. unchanged))
      (λ _. unchanged)
  where
    HasLog : Daemon → Type 0
    HasLog e = IsLog e.log_f e.output e.open_files e.opened

    unchanged : HasLog d
    unchanged = rw (l, o, r) (to_stdout d.opened)

pub open_log_keeps :
    (a : Answers) (flags : Flags) (d : Daemon)
    → ((open_log a flags d).watchdog ≡ d.watchdog) × ((open_log a flags d).status ≡ d.status)
unfolding open_log
open_log_keeps a flags d =
    if_elim IsSame (not flags.to_stdout)
      (λ _. if_elim IsSame (a.can_open d.opened) (λ _. (refl, refl)) (λ _. (refl, refl)))
      (λ _. (refl, refl))
  where
    IsSame : Daemon → Type 0
    IsSame e = (e.watchdog ≡ d.watchdog) × (e.status ≡ d.status)
