-- ===== src/CpuInfo/Link/Invariant.antt =====
-- What stays true while the two threads run.
use proxmox_cpu_affinity.Base.{
  ℕ, zero, suc, ◌+◌, ◌-◌, ◌≤◌, ℤ, rounds_of, Option, none, ◌≡◌, refl, arith, inl, inr, true,
}
use proxmox_cpu_affinity.CpuInfo.Link.{
  Shared, Phase, Move, locks, fails, gives_up, arrives, passes, backs_out, enters, sees, stores,
  leaves, Link, LinkStep, ping_moves, pong_moves, LinkRun, begins, moves,
}
use proxmox_cpu_affinity.CpuInfo.Link.Phases.{
  arrived, in_loop, is_past, is_storing, left, Told, keep_first-ne, in_loop_past, Told-keep_first,
  arrived_le,
}

-- The thread that waits for 0 has made as many rounds as the other one, or one more.
abbrev pub Even : ℕ → ℕ → ℕ → ℕ → Type 0
Even zero signal a b = b ≡ a + signal
Even (suc w) signal a b = a ≡ b + signal

-- A store ends a round.
Even-flip : (w signal a b : ℕ) → w ≤ 1 → signal ≡ w → Even w signal (suc a) b → Even w (1 - w) a b
Even-flip zero signal a b le q h = omega arith
Even-flip (suc w) signal a b le q h = omega arith

module _ {E : Type 0} where
  pub record ThreadOk (answer : Option E) (wanted : ℕ) (m : Shared E) (p : Phase E) : Type 0 where
    pub told : Told answer m.first_err p
    pub calm : in_loop p ≡ true → m.first_err ≡ none
    pub past : is_past p ≡ true → m.first_err ≡ none → m.barrier ≡ 0
    pub seen : is_storing p ≡ true → m.signal ≡ wanted

  pub record JointOk (wanted iter : ℕ) (m : Shared E) (p q : Phase E) : Type 0 where
    pub counted : m.barrier + (arrived p + arrived q) ≡ 2
    pub signal_le : m.signal ≤ 1
    pub even : m.first_err ≡ none → Even wanted m.signal (left iter p) (left iter q)

  Move-ThreadOk :
      {answer : Option E} {w iter : ℕ} {m n : Shared E} {p r : Phase E} (q : Phase E)
      → Move answer w iter m p n r
      → ThreadOk answer w m p
      → JointOk w iter m p q
      → ThreadOk answer w n r
  Move-ThreadOk q (locks a) t j = record {
    told = a;
    calm = λ h. cc;
    past = λ h. cc;
    seen = λ h. cc;
  }
  Move-ThreadOk {m} q (fails e a) t j = record {
    told = (a, keep_first-ne m.first_err e);
    calm = λ h. cc;
    past = λ h. cc;
    seen = λ h. cc;
  }
  Move-ThreadOk q (gives_up e) t j = record {
    told = inr t.told.1;
    calm = λ h. cc;
    past = λ h e. absurd (t.told.1 e);
    seen = λ h. cc;
  }
  Move-ThreadOk q arrives t j = record {
    told = t.told;
    calm = λ h. cc;
    past = λ h. cc;
    seen = λ h. cc;
  }
  Move-ThreadOk q (passes z) t j = record {
    told = t.told;
    calm = λ h. cc;
    past = λ h e. z;
    seen = λ h. cc;
  }
  Move-ThreadOk q (backs_out h) t j = record {
    told = inr h;
    calm = λ i. cc;
    past = λ i e. absurd (h e);
    seen = λ i. cc;
  }
  Move-ThreadOk q (enters h) t j = record {
    told = t.told;
    calm = λ i. h;
    past = λ i. t.past refl;
    seen = λ i. cc;
  }
  Move-ThreadOk q (sees k h) t j = record {
    told = t.told;
    calm = t.calm;
    past = t.past;
    seen = λ i. h;
  }
  Move-ThreadOk q (stores k) t j = record {
    told = t.told;
    calm = λ i. t.calm refl;
    past = λ i. t.past refl;
    seen = λ i. cc;
  }
  Move-ThreadOk q leaves t j = record {
    told = inl t.told;
    calm = λ i. cc;
    past = λ i. t.past refl;
    seen = λ i. cc;
  }

  Move-JointOk :
      {answer : Option E} {w iter : ℕ} {m n : Shared E} {p r : Phase E} (q : Phase E)
      → w ≤ 1
      → Move answer w iter m p n r
      → ThreadOk answer w m p
      → JointOk w iter m p q
      → JointOk w iter n r q
  Move-JointOk q le (locks a) t j = record {
    counted = j.counted;
    signal_le = j.signal_le;
    even = j.even;
  }
  Move-JointOk {m} q le (fails e a) t j = record {
    counted = j.counted;
    signal_le = j.signal_le;
    even = λ h. absurd (keep_first-ne m.first_err e h);
  }
  Move-JointOk q le (gives_up e) t j = record {
    counted = omega (arith, j.counted, arrived_le q);
    signal_le = j.signal_le;
    even = λ h. absurd (t.told.1 h);
  }
  Move-JointOk q le arrives t j = record {
    counted = omega (arith, j.counted, arrived_le q);
    signal_le = j.signal_le;
    even = j.even;
  }
  Move-JointOk q le (passes z) t j = record {
    counted = j.counted;
    signal_le = j.signal_le;
    even = j.even;
  }
  Move-JointOk q le (backs_out h) t j = record {
    counted = j.counted;
    signal_le = j.signal_le;
    even = λ e. absurd (h e);
  }
  Move-JointOk q le (enters h) t j = record {
    counted = j.counted;
    signal_le = j.signal_le;
    even = j.even;
  }
  Move-JointOk q le (sees k h) t j = record {
    counted = j.counted;
    signal_le = j.signal_le;
    even = j.even;
  }
  Move-JointOk {w} q le (stores k) t j = record {
    counted = j.counted;
    signal_le = omega arith;
    even = λ h. Even-flip w _ _ _ le (t.seen refl) (j.even h);
  }
  Move-JointOk q le leaves t j = record {
    counted = j.counted;
    signal_le = j.signal_le;
    even = j.even;
  }

  -- What the other thread knows stays true.
  Move-other :
      {answer other : Option E} {w iter : ℕ} {m n : Shared E} {p r : Phase E} (q : Phase E)
      → w ≤ 1
      → Move answer w iter m p n r
      → ThreadOk answer w m p
      → ThreadOk other (1 - w) m q
      → JointOk w iter m p q
      → ThreadOk other (1 - w) n q
  Move-other q le (locks a) t u j = u
  Move-other {m} q le (fails e a) t u j = record {
    told = Told-keep_first _ q m.first_err e u.told;
    calm =
        λ h. absurd (ground (arith, in_loop_past q h, u.calm h, j.counted, arrived_le q, u.past));
    past = λ h g. absurd (keep_first-ne m.first_err e g);
    seen = u.seen;
  }
  Move-other q le (gives_up e) t u j = record {
    told = u.told;
    calm = u.calm;
    past = λ h g. absurd (t.told.1 g);
    seen = u.seen;
  }
  Move-other q le arrives t u j = record {
    told = u.told;
    calm = u.calm;
    past = λ h g. omega (arith, u.past h g);
    seen = u.seen;
  }
  Move-other q le (passes z) t u j = u
  Move-other q le (backs_out h) t u j = u
  Move-other q le (enters h) t u j = u
  Move-other q le (sees k h) t u j = u
  Move-other q le (stores k) t u j = record {
    told = u.told;
    calm = u.calm;
    past = u.past;
    seen = λ h. absurd (omega (arith, le, u.seen h, t.seen refl));
  }
  Move-other q le leaves t u j = u

  JointOk-swap :
      {w iter : ℕ} {m : Shared E} {p q : Phase E}
      → w ≤ 1
      → JointOk w iter m p q
      → JointOk (1 - w) iter m q p
  JointOk-swap {w = zero} le j = record {
    counted = omega (arith, j.counted);
    signal_le = j.signal_le;
    even = j.even;
  }
  JointOk-swap {w = suc zero} le j = record {
    counted = omega (arith, j.counted);
    signal_le = j.signal_le;
    even = j.even;
  }
  JointOk-swap {w = suc (suc w)} le j = absurd (omega arith)

  pub record LinkOk (lock : ℤ → Option E) (cpu_a cpu_b iter : ℤ) (s : Link E) : Type 0 where
    pub ping_ok : ThreadOk (lock cpu_a) 0 s.shared s.ping
    pub pong_ok : ThreadOk (lock cpu_b) 1 s.shared s.pong
    pub joint : JointOk 0 (rounds_of iter) s.shared s.ping s.pong

  module _ {lock : ℤ → Option E} {cpu_a cpu_b iter : ℤ} where
    LinkStep-LinkOk :
        {s t : Link E}
        → LinkStep lock cpu_a cpu_b iter s t
        → LinkOk lock cpu_a cpu_b iter s
        → LinkOk lock cpu_a cpu_b iter t
    LinkStep-LinkOk {s} (ping_moves mv) v = record {
      ping_ok = Move-ThreadOk s.pong mv v.ping_ok v.joint;
      pong_ok = Move-other s.pong (omega arith) mv v.ping_ok v.pong_ok v.joint;
      joint = Move-JointOk s.pong (omega arith) mv v.ping_ok v.joint;
    }
    LinkStep-LinkOk {s} (pong_moves mv) v =
        let j = JointOk-swap (omega arith) v.joint in
        record {
          ping_ok = Move-other s.ping (omega arith) mv v.pong_ok v.ping_ok j;
          pong_ok = Move-ThreadOk s.ping mv v.pong_ok j;
          joint = JointOk-swap (omega arith) (Move-JointOk s.ping (omega arith) mv v.pong_ok j);
        }

    pub LinkRun-LinkOk :
        {n : ℕ} {s : Link E} → LinkRun lock cpu_a cpu_b iter n s → LinkOk lock cpu_a cpu_b iter s
    LinkRun-LinkOk begins = record {
      ping_ok = record { told = tt; calm = λ h. cc; past = λ h. cc; seen = λ h. cc };
      pong_ok = record { told = tt; calm = λ h. cc; past = λ h. cc; seen = λ h. cc };
      joint = record { counted = refl; signal_le = omega arith; even = λ h. omega arith };
    }
    LinkRun-LinkOk (moves run step) = LinkStep-LinkOk step (LinkRun-LinkOk run)
