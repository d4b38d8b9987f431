-- ===== src/Examples/Running.antt =====
-- The service from its start to its end, with the log file replaced in between.
use proxmox_cpu_affinity.Base.{
  ◌==ᵇ◌, pos, true, false, List, [], ◌∷◌, none, some, codes, All, ◌≡◌, ◌≢◌, refl,
}
use proxmox_cpu_affinity.Config.{Config}
use proxmox_cpu_affinity.ServiceMain.{
  Flags, Answers, Daemon, Watchdog, file, exited, service_starts, comes, sighup, sigterm,
  DaemonEvent, start_daemon, serve, on_signal, override,
}
use proxmox_cpu_affinity.ServiceMain.Rotation.{IsLogging}
use proxmox_cpu_affinity.ServiceMain.Shutdown.{IsStopped, serve-IsLogging, rotate-stale}

abbrev answers : Answers
answers = record {
  can_open = λ n. true;
  unmarshal_level = λ text. none;
  ranking_succeeds = true;
  scheduler_succeeds = true;
  socket_opens = true;
  socket_binds = true;
  socket_file_exists = true;
  remove_succeeds = true;
  listen_succeeds = true;
  chmod_succeeds = true;
}

abbrev flags : Flags
flags = record {
  socket = [];
  log_file = codes "/tmp/log";
  log_level = [];
  to_stdout = false;
  disable_cpu_hotplug_watchdog = false;
}

abbrev config : Config
config = record {
  log_level = codes "info";
  log_file = codes "/var/log/proxmox-cpu-affinity.log";
  socket_file = codes "/var/run/proxmox-cpu-affinity.sock";
  rounds = pos 10;
  iterations = pos 1000;
  socket_retry = pos 10;
  socket_sleep = pos 10;
  socket_timeout = pos 30;
  socket_ping_on_pre_start = true;
  cpu_hotplug_watchdog = true;
}

override_test :
    ((override flags config).log_file ≡ codes "/tmp/log")
    × ((override flags config).socket_file ≡ config.socket_file)
unfolding override ◌==ᵇ◌
override_test = (refl, refl)

abbrev events : List DaemonEvent
events = service_starts ∷ comes sighup ∷ comes sigterm ∷ comes sighup ∷ []

serve_test :
    let d = serve answers events (start_daemon answers flags config) in
    (d.open_files ≡ 1 ∷ []) × (d.status ≡ exited 0)
unfolding serve start_daemon
serve_test = (refl, refl)

serve-IsLogging_example :
    IsLogging (serve answers events (start_daemon answers flags config))
    × IsStopped (serve answers events (start_daemon answers flags config))
serve-IsLogging_example = serve-IsLogging answers flags config events

abbrev serving : Daemon
serving = serve answers (service_starts ∷ []) (start_daemon answers flags config)

abbrev watchdog : Watchdog
watchdog = record { stopped = false; netlink_open = true; logger = file 0 }

rotate-stale_example :
    ((on_signal answers sighup serving).watchdog ≡ some watchdog)
    × All (λ f. f ≢ 0) (on_signal answers sighup serving).open_files
unfolding serve start_daemon
rotate-stale_example =
    rotate-stale answers flags config (service_starts ∷ []) 0 0 watchdog refl refl refl refl
