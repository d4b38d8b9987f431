-- ===== src/Hook/Retry.antt =====
-- The retry loop of `callService`.
use proxmox_cpu_affinity.Base.{
  ℕ, zero, suc, ◌+◌, ◌≤◌, ◌<◌, ℤ, pos, List, [], ◌∷◌, ◌++◌, Option, Option-cases, none, some, Bytes,
  ◌≡◌, ◌≢◌, refl, sym, ap, subst, ◌⊎◌, inl, inr, arith,
}
use proxmox_cpu_affinity.Config.{Config}
use proxmox_cpu_affinity.Hook.{
  Attempt, HookError, Event, slept, asked, attempt_error, pause, attempts_of, call_from,
  call_service,
}

module _ (seconds : ℤ) (command : Bytes) (vmid : ℤ) where
  -- `k` more attempts, each after a pause.
  pub again : ℕ → List Event
  again zero = []
  again (suc k) = slept seconds ∷ asked command vmid ∷ again k

  -- One attempt, and `k` more.
  abbrev pub transcript : ℕ → List Event
  transcript k = asked command vmid ∷ again k

module _ (seconds : ℤ) (command : Bytes) (vmid : ℤ) (outcomes : ℕ → Attempt) where
  abbrev FailBefore : ℕ → ℕ → Type 0
  FailBefore i k = (j : ℕ) → i ≤ j → j < k → attempt_error (outcomes j) ≢ none

  -- The ways in which the loop ends, when it has the rounds `i` to `n` before it: with a success in
  -- round `m`, or with the error of round `n`.
  data Ends (i n : ℕ) (pre : ℕ → List Event) (r : Option HookError × List Event) : Type 0 where
    reached :
        (k m : ℕ)
        → i + k ≡ m
        → m ≤ n
        → attempt_error (outcomes m) ≡ none
        → FailBefore i m
        → r ≡ (none, pre k)
        → Ends i n pre r
    exhausted :
        (k : ℕ) (e : HookError)
        → i + k ≡ n
        → attempt_error (outcomes n) ≡ some e
        → FailBefore i n
        → r ≡ (some e, pre k)
        → Ends i n pre r

  FailBefore-refl : (i : ℕ) → FailBefore i i
  FailBefore-refl i j h k = absurd (omega arith)

  FailBefore-suc :
      (i m : ℕ) {e : HookError}
      → attempt_error (outcomes i) ≡ some e
      → FailBefore (suc i) m
      → FailBefore i m
  FailBefore-suc i m {e} q f j h k = elim (split_first i j h) [
    | inl same ↦ λ n. cc (ap (λ t. attempt_error (outcomes t)) same)
    | inr later ↦ f j later k
  ]
    where
      split_first : (i j : ℕ) → i ≤ j → (i ≡ j) ⊎ (suc i ≤ j)
      split_first i j h = omega arith

  abbrev round_events : ℕ → ℕ → List Event
  round_events i k = pause seconds i ++ (asked command vmid ∷ again seconds command vmid k)

  Ends-suc :
      (i n : ℕ) {e : HookError} {r : Option HookError × List Event}
      → attempt_error (outcomes i) ≡ some e
      → Ends (suc i) n (round_events (suc i)) r
      → Ends i n (round_events i) (r.0, pause seconds i ++ (asked command vmid ∷ r.1))
  unfolding again pause
  Ends-suc i n q (reached k m s le g f e) =
      reached (suc k) m (omega arith) le g (FailBefore-suc i m q f)
        (ap (λ t. (t.0, pause seconds i ++ (asked command vmid ∷ t.1))) e)
  Ends-suc i n q (exhausted k failure s g f e) =
      exhausted (suc k) failure (omega arith) g (FailBefore-suc i n q f)
        (ap (λ t. (t.0, pause seconds i ++ (asked command vmid ∷ t.1))) e)

  call_from-Ends :
      (left i n : ℕ) (failure : Option HookError)
      → i + left ≡ n
      → Ends i n (round_events i) (call_from seconds command vmid outcomes (suc left) i failure)
  unfolding call_from
  call_from-Ends zero i n failure h = elim (Option-cases (attempt_error (outcomes i))) [
    | inl q ↦
        rw (q, call_from)
          (reached 0 i (omega arith) (omega arith) q (FailBefore-refl i) (unfold again in refl))
    | inr (e, q) ↦
        let same : i ≡ n = omega arith in
        rw (q, call_from)
          (exhausted 0 e (omega arith) (subst (λ t. attempt_error (outcomes t) ≡ some e) same q)
            (subst (λ t. FailBefore i t) same (FailBefore-refl i)) (unfold again in refl))
  ]
  call_from-Ends (suc left) i n failure h = elim (Option-cases (attempt_error (outcomes i))) [
    | inl q ↦
        rw (q, call_from)
          (reached 0 i (omega arith) (omega arith) q (FailBefore-refl i) (unfold again in refl))
    | inr (e, q) ↦
        rw (q, call_from) (Ends-suc i n q (call_from-Ends left (suc i) n (some e) (omega arith)))
  ]

-- The two ways in which a call to the service ends, for `n` retries: success in attempt `m`, or the
-- error of attempt `n`.
pub data CallEnd (config : Config) (command : Bytes) (vmid : ℤ) (outcomes : ℕ → Attempt) (n : ℕ)
    (r : Option HookError × List Event) : Type 0 where
  success :
      (m : ℕ)
      → m ≤ n
      → attempt_error (outcomes m) ≡ none
      → ((j : ℕ) → j < m → attempt_error (outcomes j) ≢ none)
      → r ≡ (none, transcript config.socket_sleep command vmid m)
      → CallEnd config command vmid outcomes n r
  failure :
      (e : HookError)
      → attempt_error (outcomes n) ≡ some e
      → ((j : ℕ) → j < n → attempt_error (outcomes j) ≢ none)
      → r ≡ (some e, transcript config.socket_sleep command vmid n)
      → CallEnd config command vmid outcomes n r

-- With `n` retries, n not negative, the call stops at the first attempt that succeeds and returns no
-- error, or makes all n + 1 attempts and returns the last one's error. It pauses between two
-- attempts, and at no other time.
pub call_service-CallEnd :
    (config : Config) (command : Bytes) (vmid : ℤ) (outcomes : ℕ → Attempt) (n : ℕ)
    → config.socket_retry ≡ pos n
    → CallEnd config command vmid outcomes n (call_service config command vmid outcomes)
unfolding call_service
call_service-CallEnd config command vmid outcomes n h =
    subst
      (λ z.
        CallEnd config command vmid outcomes n
          (call_from config.socket_sleep command vmid outcomes (attempts_of z) 0 none))
      (sym h)
      (unfold attempts_of in
        from (call_from-Ends config.socket_sleep command vmid outcomes n 0 n none (omega arith)))
  where
    from :
        {r : Option HookError × List Event}
        → Ends config.socket_sleep command vmid outcomes 0 n
            (round_events config.socket_sleep command vmid outcomes 0)
            r
        → CallEnd config command vmid outcomes n r
    from {r} (reached k m s le g f e) =
        let same : k ≡ m = omega arith in
        success m le g (λ j lt. f j (omega arith) lt)
          (subst
            (λ t.
              ◌≡◌ {A = Option HookError × List Event} r
                (none, transcript config.socket_sleep command vmid t))
            same e)
    from {r} (exhausted k e s g f q) =
        let same : k ≡ n = omega arith in
        failure e g (λ j lt. f j (omega arith) lt)
          (subst
            (λ t.
              ◌≡◌ {A = Option HookError × List Event} r
                (some e, transcript config.socket_sleep command vmid t))
            same q)
