-- ===== src/ServiceMain.antt =====
-- cmd/service/main.go, with the start and the end of the watchdog (pkg/cpuinfo/hotplug.go) and of the
-- socket (pkg/service/service.go). What the system calls, the measurement and the parser of log
-- levels answer is a parameter. The files of the log are numbered as they are opened.
pub mod Rotation
pub mod Shutdown
use proxmox_cpu_affinity.Base.{
  ℕ, zero, suc, ◌==◌, ℤ, pos, Bool, true, false, not, ◌&&◌, ◌==ᵇ◌, if◌then◌else◌, List, [], ◌∷◌,
  Option, none, some, Bytes,
}
use proxmox_cpu_affinity.Config.{Config}

pub record Flags : Type 0 where
  pub socket : Bytes
  pub log_file : Bytes
  pub log_level : Bytes
  pub to_stdout : Bool
  pub disable_cpu_hotplug_watchdog : Bool

abbrev flag_or : Bytes → Bytes → Bytes
flag_or flag value = if not (flag ==ᵇ []) then flag else value

-- The flags that are given stand before the configuration.
unfoldable pub override : Flags → Config → Config
override flags cfg = record cfg {
  socket_file = flag_or flags.socket cfg.socket_file;
  log_file = flag_or flags.log_file cfg.log_file;
  log_level = flag_or flags.log_level cfg.log_level;
  cpu_hotplug_watchdog =
      if flags.disable_cpu_hotplug_watchdog then false else cfg.cpu_hotplug_watchdog;
}

-- What the system answers; `can_open` for the number of log files that were opened before.
pub record Answers : Type 0 where
  pub can_open : ℕ → Bool
  pub unmarshal_level : Bytes → Option ℤ
  pub ranking_succeeds : Bool
  pub scheduler_succeeds : Bool
  pub socket_opens : Bool
  pub socket_binds : Bool
  pub socket_file_exists : Bool
  pub remove_succeeds : Bool
  pub listen_succeeds : Bool
  pub chmod_succeeds : Bool

pub data Output : Type 0 where
  stdout : Output
  file : ℕ → Output

-- `Hotplug`: whether its reactor was stopped, whether its netlink socket is open, and what its
-- logger, `slog.Default()` when it was made, writes to.
pub record Watchdog : Type 0 where
  pub stopped : Bool
  pub netlink_open : Bool
  pub logger : Output

pub data ProgramStatus : Type 0 where
  running : ProgramStatus
  exited : ℕ → ProgramStatus

-- The variables of `main`. `opened` is the number of log files that were opened, and `open_files`
-- those that are open; `output` is what the default logger writes to.
pub record Daemon : Type 0 where
  pub config : Config
  pub level : ℤ
  pub opened : ℕ
  pub open_files : List ℕ
  pub log_f : Option ℕ
  pub output : Output
  pub watchdog : Option Watchdog
  pub listening : Bool
  pub cancelled : Bool
  pub status : ProgramStatus

unfoldable pub close_file : ℕ → List ℕ → List ℕ
close_file f [] = []
close_file f (g ∷ files) = let rest = close_file f files in if f == g then rest else g ∷ rest

-- The log file of the start: without it, the log goes to the standard output.
unfoldable pub open_log : Answers → Flags → Daemon → Daemon
open_log a flags d =
    if not flags.to_stdout
    then if a.can_open d.opened
      then record d {
        opened = suc d.opened;
        open_files = d.opened ∷ d.open_files;
        log_f = some d.opened;
        output = file d.opened;
      }
      else d
    else d

-- The level of the log, which is INFO, or 0, where it cannot be read.
level_of : Answers → Bytes → ℤ
level_of a text = elim (a.unmarshal_level text) [ none ↦ pos 0 | some level ↦ level ]

-- `StartWatchdog`, with `startNetlink`: a socket that cannot be bound is closed again.
pub start_watchdog : Answers → Output → Watchdog
start_watchdog a output = record {
  stopped = false;
  netlink_open = a.socket_opens && a.socket_binds;
  logger = output;
}

-- `StopWatchdog`, with `stopNetlink`.
stop_watchdog : Watchdog → Watchdog
stop_watchdog w = record w { stopped = true; netlink_open = false }

-- The variables before a log file is opened.
pub fresh_daemon : Answers → Config → Daemon
unfolding level_of
fresh_daemon a config = record {
  config = config;
  level = level_of a config.log_level;
  opened = 0;
  open_files = [];
  log_f = none;
  output = stdout;
  watchdog = none;
  listening = false;
  cancelled = false;
  status = running;
}

-- `main` up to the goroutine of the service.
unfoldable pub start_daemon : Answers → Flags → Config → Daemon
unfolding override open_log fresh_daemon start_watchdog
start_daemon a flags cfg =
    let config = override flags cfg in
    let d = open_log a flags (fresh_daemon a config) in
    let watched = record d {
      watchdog = if config.cpu_hotplug_watchdog then some (start_watchdog a d.output) else none;
    } in
    if not a.ranking_succeeds
    then record d { status = exited 1 }
    else if not a.scheduler_succeeds
    then record watched { status = exited 1 }
    else watched

-- `Start` up to the loop that accepts connections. A failure ends the program.
unfoldable pub start_service : Answers → Daemon → Daemon
start_service a d =
    if a.socket_file_exists && not a.remove_succeeds
    then record d { status = exited 1 }
    else if not a.listen_succeeds
    then record d { status = exited 1 }
    else if not a.chmod_succeeds
    then record d { listening = false; status = exited 1 }
    else record d { listening = true }

pub data Signal : Type 0 where
  sighup sigint sigterm : Signal

-- The new file replaces the old one, which stays in use where it cannot be opened.
unfoldable pub rotate : Answers → Daemon → Daemon
unfolding close_file
rotate a d = elim d.log_f [
  | none ↦ d
  | some old ↦
      if a.can_open d.opened
      then record d {
        opened = suc d.opened;
        open_files = d.opened ∷ close_file old d.open_files;
        log_f = some d.opened;
        output = file d.opened;
      }
      else d
]

pub stop_controller : Option Watchdog → Option Watchdog
unfolding stop_watchdog
stop_controller none = none
stop_controller (some w) = some (stop_watchdog w)

-- The end of `main`, with `Shutdown` of the service. An error of a close is only logged: the socket is
-- gone all the same.
unfoldable pub shut_down : Daemon → Daemon
unfolding stop_controller
shut_down d = record d {
  cancelled = true;
  watchdog = stop_controller d.watchdog;
  listening = false;
  status = exited 0;
}

unfoldable pub on_signal : Answers → Signal → Daemon → Daemon
unfolding rotate shut_down
on_signal a sighup d = rotate a d
on_signal a sigint d = shut_down d
on_signal a sigterm d = shut_down d

-- What happens while the program runs: the goroutine of the service starts, or a signal comes.
pub data DaemonEvent : Type 0 where
  service_starts : DaemonEvent
  comes : Signal → DaemonEvent

pub on_event : Answers → DaemonEvent → Daemon → Daemon
unfolding start_service on_signal
on_event a service_starts d = start_service a d
on_event a (comes s) d = on_signal a s d

-- The program after some events, of which those behind its end do nothing.
unfoldable pub serve : Answers → List DaemonEvent → Daemon → Daemon
unfolding on_event
serve a [] d = d
serve a (e ∷ es) d =
    let next = serve a es (on_event a e d) in elim d.status [ running ↦ next | exited n ↦ d ]
