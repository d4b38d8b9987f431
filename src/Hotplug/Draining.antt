-- ===== src/Hotplug/Draining.antt =====
-- What the reactor holds can always be handed on: its goroutines never wait for each other for good.
use proxmox_cpu_affinity.Base.{
  ltb, true, Bool-cases, List, [], ◌∷◌, length, append-nil, nil_of_length, Bytes, ◌≡◌, ◌≢◌, refl,
  sym, ap, subst, ◌∙◌, inl, inr, arith,
}
use proxmox_cpu_affinity.Hotplug.{
  CpuEvent, Timer, idle, counting, ticked, Reactor, receive, send_job, on_timer, work, ReactorStep,
  receives, runs_out, ticks, works, ReactorReachable, stepped,
}
use proxmox_cpu_affinity.Hotplug.Batches.{IsSound, flatten, ReactorReachable-IsSound}

-- Steps of the goroutines, one after another.
pub data ReactorSteps (r : Reactor) : Reactor → Type 0 where
  here : ReactorSteps r r
  further : {s t : Reactor} → ReactorSteps r s → ReactorStep s t → ReactorSteps r t

ReactorSteps-trans : {r s t : Reactor} → ReactorSteps r s → ReactorSteps s t → ReactorSteps r t
ReactorSteps-trans p here = p
ReactorSteps-trans p (further q step) = further (ReactorSteps-trans p q) step

ReactorSteps-ReactorReachable :
    {r s : Reactor} → ReactorReachable r → ReactorSteps r s → ReactorReachable s
ReactorSteps-ReactorReachable h here = h
ReactorSteps-ReactorReachable h (further p step) = stepped (ReactorSteps-ReactorReachable h p) step

-- The worker takes all jobs.
work_off :
    (jobs : List (List Bytes)) (r : Reactor)
    → r.jobs ≡ jobs
    → r.working ≡ true
    → (handled : List (List Bytes)) × ReactorSteps r (record r { jobs = []; handled = handled })
unfolding work
work_off [] r e w = (r.handled, subst (λ j. ReactorSteps r (record r { jobs = j })) e here)
work_off (job ∷ rest) r e w =
    let (handled, p) = work_off rest (work job rest r) refl w in
    (handled, ReactorSteps-trans (further here (works job rest w e)) p)

-- The batching loop takes all events.
receive_all :
    (events : List CpuEvent) (r : Reactor)
    → r.events ≡ events
    → r.batching ≡ true
    → (batch : List Bytes) × (timer : Timer) × ReactorSteps r
        (record r { events = []; batch = batch; timer = timer })
unfolding receive
receive_all [] r q b =
    (r.batch, r.timer, subst (λ e. ReactorSteps r (record r { events = e })) q here)
receive_all (e ∷ rest) r q b =
    let (batch, timer, p) = receive_all rest (receive e rest r) refl b in
    (batch, timer, ReactorSteps-trans (further here (receives e rest b q)) p)

-- The state in which only the jobs are left, with one more.
abbrev sent : Reactor → Reactor
sent r = record r { timer = idle; jobs = r.batch ∷ []; batch = [] }

on_timer-sent : (r : Reactor) → r.jobs ≡ [] → r.batch ≢ [] → on_timer r ≡ sent r
unfolding on_timer send_job
on_timer-sent r e ne = elim (Bool-cases (ltb 0 (length r.batch))) [
  | inr q ↦ absurd (ne (nil_of_length r.batch (ground arith)))
  | inl q ↦ simp (q, e, on_timer, send_job)
]

-- Where the timer runs or has run out, the batch becomes a job.
send_batch :
    (r : Reactor)
    → r.batching ≡ true
    → r.jobs ≡ []
    → r.batch ≢ []
    → (r.timer ≡ idle → r.batch ≡ [])
    → ReactorSteps r (sent r)
send_batch r b e ne armed = from r.timer refl
  where
    tick :
        (t : Reactor)
        → t.batching ≡ true
        → t.jobs ≡ []
        → t.batch ≢ []
        → t.timer ≡ ticked
        → ReactorStep t (sent t)
    tick t b e ne q = subst (ReactorStep t) (on_timer-sent t e ne) (ticks b q)

    from : (timer : Timer) → r.timer ≡ timer → ReactorSteps r (sent r)
    from idle q = absurd (ne (armed q))
    from counting q =
        further (further here (runs_out q)) (tick (record r { timer = ticked }) b e ne refl)
    from ticked q = further here (tick r b e ne q)

-- The batch that is left, if any, becomes a job, and the worker takes it.
finish_batch :
    (r : Reactor)
    → r.batching ≡ true
    → r.working ≡ true
    → r.jobs ≡ []
    → r.events ≡ []
    → IsSound r
    → (s : Reactor) × ReactorSteps r s
      × (s.lost ≡ r.lost)
      × (s.accepted ≡ r.accepted)
      × (s.jobs ≡ [])
      × (s.batch ≡ [])
      × (s.events ≡ [])
finish_batch r b w e q v = elim (Bool-cases (ltb 0 (length r.batch))) [
  | inr none_left ↦ (r, here, refl, refl, e, nil_of_length r.batch (ground arith), q)
  | inl some_left ↦
      let ne : r.batch ≢ [] = λ h. absurd (ground (arith, ap length h)) in
      let (handled, p) = work_off (r.batch ∷ []) (sent r) refl w in
      (
        record (sent r) { jobs = []; handled = handled },
        ReactorSteps-trans (send_batch r b e ne v.armed) p,
        refl,
        refl,
        refl,
        refl,
        q,
      )
]

all_handled :
    (s : Reactor)
    → IsSound s
    → s.lost ≡ []
    → s.jobs ≡ []
    → s.batch ≡ []
    → s.events ≡ []
    → flatten s.handled ≡ s.accepted
unfolding flatten
all_handled s v lost j b e =
    sym (append-nil (flatten s.handled)) ∙ rw (j, b, e) at (v.in_order lost)

-- In every state that the goroutines reach, in which both loops still run and no batch was lost,
-- there are steps after which all the CPUs of the events that went into the channel are handled, in
-- their order.
pub drains :
    (r : Reactor)
    → ReactorReachable r
    → r.batching ≡ true
    → r.working ≡ true
    → r.lost ≡ []
    → (s : Reactor) × ReactorSteps r s × (flatten s.handled ≡ r.accepted)
drains r h b w none_lost =
    let (batch, timer, p) = receive_all r.events r refl b in
    let t = record r { events = []; batch = batch; timer = timer } in
    let (handled, q) = work_off t.jobs t refl w in
    let u = record t { jobs = []; handled = handled } in
    let path = ReactorSteps-trans p q in
    let (s, o, lost, accepted, jobs, left, events) =
      finish_batch u b w refl refl
        (ReactorReachable-IsSound (ReactorSteps-ReactorReachable h path)) in
    let path_to_s = ReactorSteps-trans path o in
    let sound = ReactorReachable-IsSound (ReactorSteps-ReactorReachable h path_to_s) in
    (s, path_to_s, all_handled s sound (lost ∙ none_lost) jobs left events ∙ accepted)
