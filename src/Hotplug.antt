-- ===== src/Hotplug.antt =====
-- pkg/cpuinfo/hotplug.go: the messages that are taken from the netlink socket, and the reactor, which
-- collects events in a batch until none has come for a while, and hands the batch to a worker. Its
-- two goroutines and the socket's run side by side: each step of one of them is a step of the
-- relation. `select` takes any case that is ready, so a closed `stopChan` ends a loop some time.
pub mod Batches
pub mod Draining
use proxmox_cpu_affinity.Base.{
  ℕ, zero, suc, ltb, leb, ◌&&◌, Bool, true, false, if◌then◌else◌, List, [], ◌∷◌, ◌++◌, length,
  Option, none, some, Bytes, codes, contains, starts_with, ◌≡◌,
}

pub data CpuAction : Type 0 where
  action_add action_remove : CpuAction

pub record CpuEvent : Type 0 where
  pub cpu : Bytes
  pub action : CpuAction

-- The digits at the beginning of a text.
leading_digits : Bytes → Bytes
leading_digits [] = []
leading_digits (c ∷ s) =
    let rest = leading_digits s in if leb 48 c && leb c 57 then c ∷ rest else []

-- "cpu" with the digits after it, if there is one.
with_digits : Bytes → Option Bytes
with_digits [] = none
with_digits (d ∷ ds) = some (codes "cpu" ++ d ∷ ds)

-- `cpuNameRegexp.FindString`: the first match of "cpu[0-9]+", or the empty text.
cpu_name : Bytes → Bytes
unfolding leading_digits with_digits
cpu_name [] = []
cpu_name (a ∷ s) =
    let later = cpu_name s in
    if starts_with (codes "cpu") (a ∷ s)
    then elim (with_digits (leading_digits (skip 2 s))) [ none ↦ later | some name ↦ name ]
    else later
  where
    skip : ℕ → Bytes → Bytes
    skip zero t = t
    skip (suc n) [] = []
    skip (suc n) (c ∷ t) = skip n t

unfoldable pub event_of : Bytes → Option CpuEvent
unfolding cpu_name
event_of msg =
    if contains msg (codes "SUBSYSTEM=cpu")
    then if contains msg (codes "ACTION=add")
      then some (record { cpu = cpu_name msg; action = action_add })
      else if contains msg (codes "ACTION=remove")
      then some (record { cpu = cpu_name msg; action = action_remove })
      else none
    else none

abbrev pub event_buffer_size : ℕ
event_buffer_size = 100

abbrev pub job_buffer_size : ℕ
job_buffer_size = 10

-- `ticked`: the timer has run out, and its value is in its channel.
pub data Timer : Type 0 where
  idle counting ticked : Timer

-- The channels, and the variables of the loops. `accepted`, `handled`, `lost` and `dropped` record
-- what happened: the events that went into the channel, the calls of the handler, the batches that
-- found the job queue full, and the number of events that found the event buffer full.
pub record Reactor : Type 0 where
  pub events : List CpuEvent
  pub jobs : List (List Bytes)
  pub batch : List Bytes
  pub timer : Timer
  pub stopped : Bool
  pub batching : Bool
  pub working : Bool
  pub accepted : List Bytes
  pub handled : List (List Bytes)
  pub lost : List (List Bytes)
  pub dropped : ℕ

-- The reactor after `newHotplugReactor` and `start`.
abbrev pub new_reactor : Reactor
new_reactor = record {
  events = [];
  jobs = [];
  batch = [];
  timer = idle;
  stopped = false;
  batching = true;
  working = true;
  accepted = [];
  handled = [];
  lost = [];
  dropped = 0;
}

unfoldable pub ingest : CpuEvent → Reactor → Reactor
ingest e r =
    if ltb (length r.events) event_buffer_size
    then record r { events = r.events ++ e ∷ []; accepted = r.accepted ++ e.cpu ∷ [] }
    else record r { dropped = suc r.dropped }

-- One message of the netlink loop.
unfoldable pub on_message : Bytes → Reactor → Reactor
unfolding event_of ingest
on_message msg r = elim (event_of msg) [ none ↦ r | some e ↦ ingest e r ]

-- `case evt := <-r.events`, where `rest` stays in the channel.
pub receive : CpuEvent → List CpuEvent → Reactor → Reactor
receive e rest r = record r { events = rest; batch = r.batch ++ e.cpu ∷ []; timer = counting }

send_job : List Bytes → Reactor → Reactor
send_job job r =
    if ltb (length r.jobs) job_buffer_size
    then record r { jobs = r.jobs ++ job ∷ [] }
    else record r { lost = r.lost ++ job ∷ [] }

-- `case <-timer.C`.
pub on_timer : Reactor → Reactor
unfolding send_job
on_timer r =
    if ltb 0 (length r.batch)
    then send_job r.batch (record r { timer = idle; batch = [] })
    else record r { timer = idle }

-- `case batch := <-r.jobs`, where `rest` stays in the channel.
pub work : List Bytes → List (List Bytes) → Reactor → Reactor
work job rest r = record r { jobs = rest; handled = r.handled ++ job ∷ [] }

pub data ReactorStep (r : Reactor) : Reactor → Type 0 where
  hears : (msg : Bytes) → ReactorStep r (on_message msg r)
  receives :
      (e : CpuEvent) (rest : List CpuEvent)
      → r.batching ≡ true
      → r.events ≡ e ∷ rest
      → ReactorStep r (receive e rest r)
  runs_out : r.timer ≡ counting → ReactorStep r (record r { timer = ticked })
  ticks : r.batching ≡ true → r.timer ≡ ticked → ReactorStep r (on_timer r)
  works :
      (job : List Bytes) (rest : List (List Bytes))
      → r.working ≡ true
      → r.jobs ≡ job ∷ rest
      → ReactorStep r (work job rest r)
  stops : ReactorStep r (record r { stopped = true })
  ends_batching : r.stopped ≡ true → ReactorStep r (record r { batching = false })
  ends_working : r.stopped ≡ true → ReactorStep r (record r { working = false })

pub data ReactorReachable : Reactor → Type 0 where
  started : ReactorReachable new_reactor
  stepped : {r s : Reactor} → ReactorReachable r → ReactorStep r s → ReactorReachable s
