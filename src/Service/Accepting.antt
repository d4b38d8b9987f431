-- ===== src/Service/Accepting.antt =====
-- The loop of `Start` of pkg/service/service.go that accepts connections, and the goroutines that
-- handle them. Connections are numbered as they are accepted. A goroutine comes to the shared
-- ranking once, under the lock, so handling a connection is one step, at any time after it was
-- accepted; a client may be slow, so the connections end in any order.
pub mod Answering
use mathlib.Core.List.{Nodup}
use proxmox_cpu_affinity.Base.{
  ℕ, suc, ℤ, Bool, if◌then◌else◌, List, [], ◌∷◌, ◌++◌, Option, Result, ok, SliceSort, ◌≡◌,
}
use proxmox_cpu_affinity.CpuInfo.Floats.{Float64}
use proxmox_cpu_affinity.CpuInfo.Types.{CoreInfo, Neighbor, CoreRanking, CpuInfo, initial}
use proxmox_cpu_affinity.CpuInfo.Selection.{install}
use proxmox_cpu_affinity.CpuInfo.Update.{measure_all}
use proxmox_cpu_affinity.CpuInfo.Update.Ranking.{topology_cpus}
use proxmox_cpu_affinity.Proxmox.{Host}
use proxmox_cpu_affinity.Scheduler.Mask.{CpuMask}
use proxmox_cpu_affinity.Scheduler.Processes.{ProcFs}
use proxmox_cpu_affinity.Service.{Incoming, Response, Handled, handle_connection}

-- The loop goes on, or `Start` has returned nil or the error of `Accept`.
pub data AcceptLoop : Type 0 where
  accepting returned_nil accept_error : AcceptLoop

-- `pending` holds the connections that a goroutine is to handle, and `answered` those whose goroutine
-- has ended, with its response; a client that closed gets none.
pub record ServerState (F Mask : Type 0) : Type 0 where
  pub cpu_info : CpuInfo F
  pub accepted : ℕ
  pub pending : List (ℕ × Incoming)
  pub answered : List (ℕ × Option (Response F))
  pub calls : List (ℤ × Mask)
  pub accept_loop : AcceptLoop

module _ {F Mask : Type 0} where
  unfoldable pub listening_state : CpuInfo F → ServerState F Mask
  listening_state c = record {
    cpu_info = c;
    accepted = 0;
    pending = [];
    answered = [];
    calls = [];
    accept_loop = accepting;
  }

  -- `Accept` returns a connection.
  unfoldable pub accept_connection : Incoming → ServerState F Mask → ServerState F Mask
  accept_connection i s = record s {
    accepted = suc s.accepted;
    pending = s.pending ++ (s.accepted, i) ∷ [];
  }

  -- `Accept` returns an error; `closed` says whether it is `net.ErrClosed`.
  unfoldable pub accept_failure : Bool → ServerState F Mask → ServerState F Mask
  accept_failure closed s = record s { accept_loop = if closed then returned_nil else accept_error }

  -- A goroutine ends: what it leaves behind, and which connections still wait.
  unfoldable pub finish_connection :
      ℕ → Handled F Mask → List (ℕ × Incoming) → ServerState F Mask → ServerState F Mask
  finish_connection n e rest s = record s {
    cpu_info = e.cpu_info;
    pending = rest;
    answered = s.answered ++ (n, e.response) ∷ [];
    calls = s.calls ++ e.calls;
  }

module _ (f : Float64) (sorting : SliceSort f.F) (neighbor_sorting : SliceSort (Neighbor f.F))
    (masks : CpuMask) where
  open masks use {Mask}

  -- The steps. The system may have changed from one connection to the next, and an `Update` may put
  -- in a new ranking at any time.
  pub data ServerStep (s : ServerState f.F Mask) : ServerState f.F Mask → Type 0 where
    accepts : (i : Incoming) → s.accept_loop ≡ accepting → ServerStep s (accept_connection i s)
    fails : (closed : Bool) → s.accept_loop ≡ accepting → ServerStep s (accept_failure closed s)
    handles :
        (proc : ProcFs) (order : List ℤ → List ℤ) (h : Host) (n : ℕ) (i : Incoming)
        (before after : List (ℕ × Incoming))
        → s.pending ≡ before ++ (n, i) ∷ after
        → ServerStep s (
            finish_connection n
              (handle_connection f sorting masks proc order h i s.cpu_info)
              (before ++ after)
              s)
    refreshed :
        (measurer : ℕ → ℤ → ℤ → ℤ → Result ℕ f.F) (rounds iterations : ℤ) (callback : Bool)
        (topology : List CoreInfo) (results : List (CoreRanking f.F))
        → Nodup (topology_cpus topology)
        → measure_all f measurer neighbor_sorting rounds iterations callback topology ≡ ok results
        → ServerStep s (record s { cpu_info = install results s.cpu_info })

  -- The states of a server that has started with a ranking.
  pub data ServerSteps (s : ServerState f.F Mask) : ServerState f.F Mask → Type 0 where
    here : ServerSteps s s
    further : {t u : ServerState f.F Mask} → ServerSteps s t → ServerStep t u → ServerSteps s u
