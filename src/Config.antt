-- ===== src/Config.antt =====
-- pkg/config/config.go: the measurement parameters for a number of CPUs, and the configuration from
-- the environment. `godotenv.Load` puts the file's variables into the environment before it is
-- read; the environment that results is a parameter, and so is the number of CPUs found in sysfs.
pub mod Adaptive
pub mod Overrides
use proxmox_cpu_affinity.Base.{
  ℕ, ℤ, pos, leb, ◌==◌, length, Bool, true, false, ◌||◌, ◌==ᵇ◌, if◌then◌else◌, List, [], ◌∷◌,
  Option, none, some, Bytes, codes, atoi,
}

pub record Limit : Type 0 where
  pub cores : ℕ
  pub rounds : ℕ
  pub iterations : ℕ

abbrev limit : ℕ → ℕ → ℕ → Limit
limit cores rounds iterations = record { cores = cores; rounds = rounds; iterations = iterations }

abbrev limits : List Limit
limits = limit 16 10 100000 ∷ limit 32 5 50000 ∷ limit 64 3 25000 ∷ limit 128 2 10000 ∷ []

-- The loop over the limits: the first that is not exceeded.
first_limit : ℕ → List Limit → ℕ × ℕ
first_limit cpu_count [] = (2, 5000)
first_limit cpu_count (l ∷ ls) =
    if leb cpu_count l.cores then (l.rounds, l.iterations) else first_limit cpu_count ls

unfoldable pub adaptive_cpu_info_parameters : ℕ → ℕ × ℕ
unfolding first_limit
adaptive_cpu_info_parameters cpu_count = first_limit cpu_count limits

-- `numCPU`: the paths that the glob finds, or `runtime.NumCPU()` if there is none.
unfoldable pub num_cpu : List Bytes → ℕ → ℕ
num_cpu matches runtime_cpus = if length matches == 0 then runtime_cpus else length matches

-- `os.LookupEnv`.
abbrev pub Environment : Type 0
Environment = Bytes → Option Bytes

unfoldable pub get_env : Environment → Bytes → Bytes → Bytes
get_env env key fallback = elim (env key) [ none ↦ fallback | some value ↦ value ]

-- `strconv.ParseBool`.
pub parse_bool : Bytes → Option Bool
parse_bool s =
    if s ==ᵇ codes "1"
      || s ==ᵇ codes "t"
      || s ==ᵇ codes "T"
      || s ==ᵇ codes "true"
      || s ==ᵇ codes "TRUE"
      || s ==ᵇ codes "True"
    then some true
    else if s ==ᵇ codes "0"
        || s ==ᵇ codes "f"
        || s ==ᵇ codes "F"
        || s ==ᵇ codes "false"
        || s ==ᵇ codes "FALSE"
        || s ==ᵇ codes "False"
    then some false
    else none

or_else {ℓ} : {A : Type ℓ} → Option A → A → A
or_else none d = d
or_else (some a) d = a

unfoldable pub get_env_bool : Environment → Bytes → Bool → Bool
unfolding parse_bool or_else
get_env_bool env key fallback = elim (env key) [
  | none ↦ fallback
  | some value ↦ or_else (parse_bool value) fallback
]

unfoldable pub get_env_int : Environment → Bytes → ℤ → ℤ
unfolding or_else
get_env_int env key fallback = elim (env key) [
  | none ↦ fallback
  | some value ↦ or_else (atoi value) fallback
]

pub record Config : Type 0 where
  pub log_level : Bytes
  pub log_file : Bytes
  pub socket_file : Bytes
  pub rounds : ℤ
  pub iterations : ℤ
  pub socket_retry : ℤ
  pub socket_sleep : ℤ
  pub socket_timeout : ℤ
  pub socket_ping_on_pre_start : Bool
  pub cpu_hotplug_watchdog : Bool

unfoldable pub load : Environment → ℕ → Config
unfolding adaptive_cpu_info_parameters get_env get_env_int get_env_bool
load env cpu_count =
    let defaults = adaptive_cpu_info_parameters cpu_count in
    record {
      log_level = get_env env (codes "PCA_LOG_LEVEL") (codes "info");
      log_file = get_env env (codes "PCA_LOG_FILE") (codes "/var/log/proxmox-cpu-affinity.log");
      socket_file =
          get_env env (codes "PCA_SOCKET_FILE") (codes "/var/run/proxmox-cpu-affinity.sock");
      rounds = get_env_int env (codes "PCA_ROUNDS") (pos defaults.0);
      iterations = get_env_int env (codes "PCA_ITERATIONS") (pos defaults.1);
      socket_retry = get_env_int env (codes "PCA_SOCKET_RETRY") (pos 10);
      socket_sleep = get_env_int env (codes "PCA_SOCKET_SLEEP") (pos 10);
      socket_timeout = get_env_int env (codes "PCA_SOCKET_TIMEOUT") (pos 30);
      socket_ping_on_pre_start = get_env_bool env (codes "PCA_SOCKET_PING_ON_PRESTART") true;
      cpu_hotplug_watchdog = get_env_bool env (codes "PCA_CPU_HOTPLUG_WATCHDOG") true;
    }
