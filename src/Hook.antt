-- ===== src/Hook.antt =====
-- pkg/hook/hook.go and cmd/hook/main.go: what runs for a VM's lifecycle event. What the service
-- makes of the attempts is a parameter, one outcome for each attempt; what the hook does is a list
-- of events.
pub mod Retry
pub mod Phases
use proxmox_cpu_affinity.Base.{
  ℕ, zero, suc, ◌==◌, ℤ, pos, negsuc, Bool, true, false, if◌then◌else◌, ◌==ᵇ◌, ◌||◌, List, [], ◌∷◌,
  ◌++◌, Option, none, some, Bytes, codes, atoi,
}
use proxmox_cpu_affinity.Config.{Config}

-- One run of the function that `callService` calls in each round.
pub data Attempt : Type 0 where
  dial_failed send_failed reply_unreadable : Attempt
  answered : Bytes → Bytes → Attempt

pub data HookError : Type 0 where
  unreachable not_sent not_decoded : HookError
  refused : Bytes → HookError
  unknown_phase : Bytes → HookError

pub data Event : Type 0 where
  slept : ℤ → Event
  asked : Bytes → ℤ → Event
  warned : HookError → Event
  complained : HookError → Event

-- The error of an attempt, and `none` for `nil`.
pub attempt_error : Attempt → Option HookError
attempt_error dial_failed = some unreachable
attempt_error send_failed = some not_sent
attempt_error reply_unreadable = some not_decoded
attempt_error (answered status failure) =
    if status ==ᵇ codes "ok" then none else some (refused failure)

-- The rounds of `for i := 0; i <= retry; i++`.
attempts_of : ℤ → ℕ
attempts_of (pos n) = suc n
attempts_of (negsuc n) = 0

-- The pause before every round but the first.
pause : ℤ → ℕ → List Event
pause seconds zero = []
pause seconds (suc i) = slept seconds ∷ []

module _ (seconds : ℤ) (command : Bytes) (vmid : ℤ) (outcomes : ℕ → Attempt) where
  -- `left` rounds, from round `i` on, where `failure` is the last error.
  call_from : ℕ → ℕ → Option HookError → Option HookError × List Event
  unfolding attempt_error pause
  call_from zero i failure = (failure, [])
  call_from (suc left) i failure = elim (attempt_error (outcomes i)) [
    | none ↦ (none, pause seconds i ++ asked command vmid ∷ [])
    | some e ↦
        let (r, events) = call_from left (suc i) (some e) in
        (r, pause seconds i ++ (asked command vmid ∷ events))
  ]

unfoldable pub call_service : Config → Bytes → ℤ → (ℕ → Attempt) → Option HookError × List Event
unfolding call_from attempts_of
call_service config command vmid outcomes =
    call_from config.socket_sleep command vmid outcomes (attempts_of config.socket_retry) 0 none

-- Both handlers that call the service report an error and return `nil`.
report : (HookError → Event) → Option HookError × List Event → List Event
report event (none, events) = events
report event (some e, events) = events ++ event e ∷ []

on_pre_start : Config → ℤ → (ℕ → Attempt) → Option HookError × List Event
unfolding report call_service
on_pre_start config vmid outcomes = (
  none,
  if config.socket_ping_on_pre_start
      then report warned (call_service config (codes "ping") vmid outcomes)
      else [],
)

on_post_start : Config → ℤ → (ℕ → Attempt) → Option HookError × List Event
unfolding report call_service
on_post_start config vmid outcomes =
    (none, report complained (call_service config (codes "update-affinity") vmid outcomes))

-- `OnPreStop` and `OnPostStop`.
on_stop : Option HookError × List Event
on_stop = (none, [])

unfoldable pub handle : Config → ℤ → Bytes → (ℕ → Attempt) → Option HookError × List Event
unfolding on_pre_start on_post_start on_stop
handle config vmid phase outcomes =
    if phase ==ᵇ codes "pre-start"
    then on_pre_start config vmid outcomes
    else if phase ==ᵇ codes "post-start"
    then on_post_start config vmid outcomes
    else if phase ==ᵇ codes "pre-stop"
    then on_stop
    else if phase ==ᵇ codes "post-stop"
    then on_stop
    else (some (unknown_phase phase), [])

exit_code : Option HookError → ℕ
exit_code none = 0
exit_code (some e) = 1

-- The exit status and the events of `proxmox-cpu-affinity-hook`.
finish : Option HookError × List Event → ℕ × List Event
unfolding exit_code
finish (failure, events) = (exit_code failure, events)

run_with : Config → Bytes → Bytes → (ℕ → Attempt) → ℕ × List Event
unfolding finish handle
run_with config vmid_text phase outcomes = elim (atoi vmid_text) [
  | none ↦ (1, [])
  | some vmid ↦ finish (handle config vmid phase outcomes)
]

-- What `flag.Parse` makes of the arguments, for a program that defines no flag: what is left of them,
-- or it prints the usage, or a message about a flag that is not defined, and exits.
pub data Parsed : Type 0 where
  left : List Bytes → Parsed
  help_requested bad_flag : Parsed

-- The name of a flag, which ends before the first `=` but for one in front.
rest_of_name : Bytes → Bytes
rest_of_name [] = []
rest_of_name (c ∷ s) = let rest = rest_of_name s in if c == b'=' then [] else c ∷ rest

flag_name : Bytes → Bytes
unfolding rest_of_name
flag_name [] = []
flag_name (c ∷ s) = c ∷ rest_of_name s

bad_start : Bytes → Bool
bad_start [] = true
bad_start (c ∷ s) = c == b'-' || c == b'='

parse_name : Bytes → Parsed
unfolding bad_start flag_name
parse_name name =
    if bad_start name
    then bad_flag
    else if flag_name name ==ᵇ codes "help" || flag_name name ==ᵇ codes "h"
    then help_requested
    else bad_flag

-- `args` starts with a text of `-` and something behind it, which is `c ∷ s`.
parse_flag : ℕ → Bytes → List Bytes → Parsed
unfolding parse_name
parse_flag c [] rest = if c == b'-' then left rest else parse_name (c ∷ [])
parse_flag c (d ∷ s) rest = if c == b'-' then parse_name (d ∷ s) else parse_name (c ∷ d ∷ s)

unfoldable pub parse_flags : List Bytes → Parsed
unfolding parse_flag
parse_flags [] = left []
parse_flags ([] ∷ rest) = left ([] ∷ rest)
parse_flags ((a ∷ []) ∷ rest) = left ((a ∷ []) ∷ rest)
parse_flags ((a ∷ c ∷ s) ∷ rest) =
    if a == b'-' then parse_flag c s rest else left ((a ∷ c ∷ s) ∷ rest)

-- `main` from `flag.Args()` on.
unfoldable pub run_args : List Bytes → Config → (ℕ → Attempt) → ℕ × List Event
unfolding run_with
run_args [] config outcomes = (1, [])
run_args (a ∷ []) config outcomes = (1, [])
run_args (a ∷ b ∷ rest) config outcomes = run_with config a b outcomes

-- `flag.Parse` exits with 0 after a request for help, and with 2 after an error.
unfoldable pub run_parsed : Parsed → Config → (ℕ → Attempt) → ℕ × List Event
unfolding run_args
run_parsed (left args) config outcomes = run_args args config outcomes
run_parsed help_requested config outcomes = (0, [])
run_parsed bad_flag config outcomes = (2, [])

-- `installed`: the service's binary is on this host.
unfoldable pub main : Bool → List Bytes → Config → (ℕ → Attempt) → ℕ × List Event
unfolding run_parsed parse_flags
main false args config outcomes = (0, [])
main true args config outcomes = run_parsed (parse_flags args) config outcomes
