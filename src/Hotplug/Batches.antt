-- ===== src/Hotplug/Batches.antt =====
-- What stays true of the reactor: the bounds of its channels, and the order of the events.
use proxmox_cpu_affinity.Base.{
  Bool, ◌≤◌, ltb, Bool-cases, List, [], ◌∷◌, ◌++◌, map, length, length-append, append_assoc,
  append-nil, Bytes, All, All-append, ◌≡◌, ◌≢◌, refl, sym, ap, subst, ◌∙◌, inl, inr, arith,
  Option-cases, true, false, nil_of_length,
}
use proxmox_cpu_affinity.Hotplug.{
  CpuEvent, Timer, idle, ticked, Reactor, event_of, ingest, on_message, receive, send_job, on_timer,
  work, event_buffer_size, job_buffer_size, ReactorStep, hears, receives, runs_out, ticks, works,
  stops, ends_batching, ends_working, ReactorReachable, started, stepped,
}

unfoldable pub flatten : {A : Type 0} → List (List A) → List A
flatten [] = []
flatten (xs ∷ xss) = xs ++ flatten xss

flatten-append :
    {A : Type 0} (xss : List (List A)) (ys : List A) → flatten (xss ++ ys ∷ []) ≡ flatten xss ++ ys
unfolding flatten
flatten-append [] ys = append-nil ys
flatten-append (xs ∷ xss) ys =
    ap (◌++◌ xs) (flatten-append xss ys) ∙ sym (append_assoc xs (flatten xss) ys)

abbrev pub cpu_names : List CpuEvent → List Bytes
cpu_names = map (λ e. e.cpu)

cpu_names-append :
    (es : List CpuEvent) (e : CpuEvent) → cpu_names (es ++ e ∷ []) ≡ cpu_names es ++ e.cpu ∷ []
cpu_names-append [] e = refl
cpu_names-append (d ∷ es) e = ap (◌∷◌ d.cpu) (cpu_names-append es e)

-- What was handled, what waits for the worker, the batch, and what waits in the event channel.
abbrev pub in_flight : Reactor → List Bytes
in_flight r = flatten r.handled ++ (flatten r.jobs ++ (r.batch ++ cpu_names r.events))

pub record IsSound (r : Reactor) : Type 0 where
  pub events_fit : length r.events ≤ event_buffer_size
  pub jobs_fit : length r.jobs ≤ job_buffer_size
  pub armed : r.timer ≡ idle → r.batch ≡ []
  pub handled_filled : All (λ b. b ≢ []) r.handled
  pub jobs_filled : All (λ b. b ≢ []) r.jobs
  pub in_order : r.lost ≡ [] → in_flight r ≡ r.accepted

ingest-IsSound : (e : CpuEvent) (r : Reactor) → IsSound r → IsSound (ingest e r)
unfolding ingest
ingest-IsSound e r v = elim (Bool-cases (ltb (length r.events) event_buffer_size)) [
  | inr q ↦
      rw (q, ingest)
        (record {
          events_fit = v.events_fit;
          jobs_fit = v.jobs_fit;
          armed = v.armed;
          handled_filled = v.handled_filled;
          jobs_filled = v.jobs_filled;
          in_order = v.in_order;
        })
  | inl q ↦
      rw (q, ingest)
        (record {
          events_fit = ground (arith, length-append r.events (e ∷ []));
          jobs_fit = v.jobs_fit;
          armed = v.armed;
          handled_filled = v.handled_filled;
          jobs_filled = v.jobs_filled;
          in_order =
              λ h. rw (cpu_names-append r.events e, sym (v.in_order h)) (simp (append_assoc));
        })
]

receive-IsSound :
    (e : CpuEvent) (rest : List CpuEvent) (r : Reactor)
    → r.events ≡ e ∷ rest
    → IsSound r
    → IsSound (receive e rest r)
unfolding receive
receive-IsSound e rest r q v = record {
  events_fit = omega (arith, v.events_fit, ap length q);
  jobs_fit = v.jobs_fit;
  armed = λ h. cc;
  handled_filled = v.handled_filled;
  jobs_filled = v.jobs_filled;
  in_order = λ h. rw (sym (v.in_order h), q) (simp (append_assoc));
}

send_job-IsSound :
    (r : Reactor)
    → r.batch ≢ []
    → IsSound r
    → IsSound (send_job r.batch (record r { timer = idle; batch = [] }))
unfolding send_job
send_job-IsSound r ne v = elim (Bool-cases (ltb (length r.jobs) job_buffer_size)) [
  | inl q ↦
      rw (q, send_job)
        (record {
          events_fit = v.events_fit;
          jobs_fit = ground (arith, length-append r.jobs (r.batch ∷ []));
          armed = λ h. refl;
          handled_filled = v.handled_filled;
          jobs_filled = All-append _ r.jobs (r.batch ∷ []) v.jobs_filled (ne, tt);
          in_order =
              λ h. rw (sym (v.in_order h), flatten-append r.jobs r.batch) (simp (append_assoc));
        })
  | inr q ↦
      rw (q, send_job)
        (record {
          events_fit = v.events_fit;
          jobs_fit = v.jobs_fit;
          armed = λ h. refl;
          handled_filled = v.handled_filled;
          jobs_filled = v.jobs_filled;
          in_order = λ h. absurd (omega (arith, length-append r.lost (r.batch ∷ []), ap length h));
        })
]

on_timer-IsSound : (r : Reactor) → IsSound r → IsSound (on_timer r)
unfolding on_timer
on_timer-IsSound r v = elim (Bool-cases (ltb 0 (length r.batch))) [
  | inl q ↦ rw (q, on_timer) (send_job-IsSound r (λ e. absurd (ground (arith, ap length e))) v)
  | inr q ↦
      rw (q, on_timer)
        (record {
          events_fit = v.events_fit;
          jobs_fit = v.jobs_fit;
          armed = λ h. nil_of_length r.batch (ground arith);
          handled_filled = v.handled_filled;
          jobs_filled = v.jobs_filled;
          in_order = v.in_order;
        })
]

work-IsSound :
    (job : List Bytes) (rest : List (List Bytes)) (r : Reactor)
    → r.jobs ≡ job ∷ rest
    → IsSound r
    → IsSound (work job rest r)
unfolding work flatten
work-IsSound job rest r q v =
    let filled : All (λ b. b ≢ []) (job ∷ rest) = subst (All (λ b. b ≢ [])) q v.jobs_filled in
    record {
      events_fit = v.events_fit;
      jobs_fit = omega (arith, v.jobs_fit, ap length q);
      armed = v.armed;
      handled_filled = All-append _ r.handled (job ∷ []) v.handled_filled (filled.0, tt);
      jobs_filled = filled.1;
      in_order =
          λ h. rw (sym (v.in_order h), q, flatten-append r.handled job) (simp (append_assoc));
    }

on_message-IsSound : (msg : Bytes) (r : Reactor) → IsSound r → IsSound (on_message msg r)
unfolding on_message
on_message-IsSound msg r v = elim (Option-cases (event_of msg)) [
  | inl q ↦ rw (q, on_message) v
  | inr (e, q) ↦ rw (q, on_message) (ingest-IsSound e r v)
]

-- A change of the variables that a sound reactor does not depend on, or of the timer once it counts.
flags_IsSound :
    (r : Reactor) (timer : Timer) (stopped batching working : Bool)
    → (timer ≡ idle → r.timer ≡ idle)
    → IsSound r
    → IsSound
        (record r { timer = timer; stopped = stopped; batching = batching; working = working })
flags_IsSound r timer stopped batching working h v = record {
  events_fit = v.events_fit;
  jobs_fit = v.jobs_fit;
  armed = λ e. v.armed (h e);
  handled_filled = v.handled_filled;
  jobs_filled = v.jobs_filled;
  in_order = v.in_order;
}

ReactorStep-IsSound : {r s : Reactor} → ReactorStep r s → IsSound r → IsSound s
ReactorStep-IsSound {r} (hears msg) v = on_message-IsSound msg r v
ReactorStep-IsSound {r} (receives e rest b q) v = receive-IsSound e rest r q v
ReactorStep-IsSound {r} (runs_out q) v =
    flags_IsSound r ticked r.stopped r.batching r.working (λ e. cc) v
ReactorStep-IsSound {r} (ticks b q) v = on_timer-IsSound r v
ReactorStep-IsSound {r} (works job rest w q) v = work-IsSound job rest r q v
ReactorStep-IsSound {r} stops v = flags_IsSound r r.timer true r.batching r.working (λ e. e) v
ReactorStep-IsSound {r} (ends_batching q) v =
    flags_IsSound r r.timer r.stopped false r.working (λ e. e) v
ReactorStep-IsSound {r} (ends_working q) v =
    flags_IsSound r r.timer r.stopped r.batching false (λ e. e) v

-- In every state that the goroutines reach, neither channel holds more than its size; a batch that
-- is not empty has a timer that will hand it on; no batch that is handled, or waits to be, is empty;
-- and unless a batch was lost, the CPUs of the events that went into the channel are, in their
-- order, those that were handled, then those that wait as jobs, in the batch, and in the channel.
pub ReactorReachable-IsSound : {r : Reactor} → ReactorReachable r → IsSound r
unfolding flatten
ReactorReachable-IsSound started = record {
  events_fit = omega arith;
  jobs_fit = omega arith;
  armed = λ h. refl;
  handled_filled = tt;
  jobs_filled = tt;
  in_order = λ h. refl;
}
ReactorReachable-IsSound (stepped r s) = ReactorStep-IsSound s (ReactorReachable-IsSound r)
