-- ===== src/Hook/Phases.antt =====
-- What each phase does, and what the hook's exit status says.
use proxmox_cpu_affinity.Base.{
  ℕ, ℤ, true, false, ◌==ᵇ◌, ==ᵇ_iff, if_elim, List, [], ◌∷◌, Option, Option-cases, none, some,
  Bytes, codes, atoi, ◌≡◌, refl, sym, subst, ◌⊎◌, inl, inr, Bool-cases,
}
use proxmox_cpu_affinity.Config.{Config}
use proxmox_cpu_affinity.Hook.{
  Attempt, HookError, Event, unknown_phase, handle, run_with, main, finish, Parsed, left,
  help_requested, bad_flag, parse_flags, run_args, run_parsed,
}

-- The four phases of a VM.
pub data IsPhase : Bytes → Type 0 where
  pre_start : IsPhase (codes "pre-start")
  post_start : IsPhase (codes "post-start")
  pre_stop : IsPhase (codes "pre-stop")
  post_stop : IsPhase (codes "post-stop")

-- In a known phase the handler reports no error, whatever the service does.
handle_known :
    (config : Config) (vmid : ℤ) (phase : Bytes) (outcomes : ℕ → Attempt)
    → IsPhase phase
    → (handle config vmid phase outcomes).0 ≡ none
unfolding handle ◌==ᵇ◌
handle_known config vmid _ outcomes pre_start = refl
handle_known config vmid _ outcomes post_start = refl
handle_known config vmid _ outcomes pre_stop = refl
handle_known config vmid _ outcomes post_stop = refl

is_name : {phase : Bytes} (name : Bytes) → (phase ==ᵇ name) ≡ true → IsPhase name → IsPhase phase
is_name {phase} name e p = subst IsPhase (sym ((==ᵇ_iff phase name).0 e)) p

-- In any other phase it reports the phase and does nothing.
handle_unknown :
    (config : Config) (vmid : ℤ) (phase : Bytes) (outcomes : ℕ → Attempt)
    → ¬ IsPhase phase
    → handle config vmid phase outcomes ≡ (some (unknown_phase phase), [])
unfolding handle
handle_unknown config vmid phase outcomes ne =
    let P : Option HookError × List Event → Type 0 = λ r. r ≡ (some (unknown_phase phase), []) in
    if_elim P (phase ==ᵇ codes "pre-start") (λ e. absurd (ne (is_name _ e pre_start)))
      λ _.
        if_elim P (phase ==ᵇ codes "post-start") (λ e. absurd (ne (is_name _ e post_start)))
          λ _.
            if_elim P (phase ==ᵇ codes "pre-stop") (λ e. absurd (ne (is_name _ e pre_stop)))
              λ _.
                if_elim P (phase ==ᵇ codes "post-stop") (λ e. absurd (ne (is_name _ e post_stop)))
                  λ _. refl

finish_known : (r : Option HookError × List Event) → r.0 ≡ none → (finish r).0 ≡ 0
unfolding finish
finish_known (none, events) h = refl
finish_known (some e, events) h = cc

-- Arguments with which the hook does its work: a VM id that is a number, and a known phase.
pub data IsCall : List Bytes → Type 0 where
  call :
      (vmid_text phase : Bytes) (vmid : ℤ) (rest : List Bytes)
      → atoi vmid_text ≡ some vmid
      → IsPhase phase
      → IsCall (vmid_text ∷ phase ∷ rest)

run_args_accepts :
    (args : List Bytes) (config : Config) (outcomes : ℕ → Attempt)
    → IsCall args
    → (run_args args config outcomes).0 ≡ 0
unfolding run_args
run_args_accepts args config outcomes (call vmid_text phase vmid rest n p) =
    rw (n, run_args, run_with)
      (finish_known (handle config vmid phase outcomes) (handle_known config vmid phase outcomes p))

run_args_rejects :
    (args : List Bytes) (config : Config) (outcomes : ℕ → Attempt)
    → ¬ IsCall args
    → run_args args config outcomes ≡ (1, [])
unfolding run_args
run_args_rejects [] config outcomes ne = refl
run_args_rejects (a ∷ []) config outcomes ne = refl
run_args_rejects (a ∷ b ∷ rest) config outcomes ne = elim (Option-cases (atoi a)) [
  | inl q ↦ rw (q, run_args, run_with)
  | inr (vmid, q) ↦
      rw
        (
          q,
          run_args,
          run_with,
          handle_unknown config vmid b outcomes (λ p. ne (call a b vmid rest q p)),
        )
        (unfold finish in refl)
]

not-IsPhase :
    (phase : Bytes)
    → (phase ==ᵇ codes "pre-start") ≡ false
    → (phase ==ᵇ codes "post-start") ≡ false
    → (phase ==ᵇ codes "pre-stop") ≡ false
    → (phase ==ᵇ codes "post-stop") ≡ false
    → ¬ IsPhase phase
unfolding ◌==ᵇ◌
not-IsPhase _ a b c d pre_start = cc
not-IsPhase _ a b c d post_start = cc
not-IsPhase _ a b c d pre_stop = cc
not-IsPhase _ a b c d post_stop = cc

IsPhase-cases : (phase : Bytes) → IsPhase phase ⊎ (¬ IsPhase phase)
IsPhase-cases phase = elim (Bool-cases (phase ==ᵇ codes "pre-start")) [
  | inl a ↦ inl (is_name _ a pre_start)
  | inr a ↦ elim (Bool-cases (phase ==ᵇ codes "post-start")) [
    | inl b ↦ inl (is_name _ b post_start)
    | inr b ↦ elim (Bool-cases (phase ==ᵇ codes "pre-stop")) [
      | inl c ↦ inl (is_name _ c pre_stop)
      | inr c ↦ elim (Bool-cases (phase ==ᵇ codes "post-stop")) [
        | inl d ↦ inl (is_name _ d post_stop)
        | inr d ↦ inr (not-IsPhase phase a b c d)
      ]
    ]
  ]
]

IsCall-cases : (args : List Bytes) → IsCall args ⊎ (¬ IsCall args)
IsCall-cases [] = inr λ c. elim c [ ]
IsCall-cases (a ∷ []) = inr λ c. elim c [ ]
IsCall-cases (a ∷ b ∷ rest) = elim (Option-cases (atoi a)) [
  | inl q ↦ inr λ c. elim c [ call _ _ vmid _ n p ↦ cc ]
  | inr (vmid, q) ↦ elim (IsPhase-cases b) [
    | inl p ↦ inl (call a b vmid rest q p)
    | inr np ↦ inr λ c. elim c [ call _ _ vmid _ n p ↦ np p ]
  ]
]

-- Where the service is installed: if flag.Parse leaves a VM id that is a number and a known phase,
-- the hook exits with 0, whether the service answers or not, and if it leaves anything else, with 1,
-- having done nothing. It exits with 0 after a request for help, and with 2 for any other argument
-- that stands in front and looks like a flag, as a negative VM id does, and does nothing then.
pub main-IsCall :
    (args : List Bytes) (config : Config) (outcomes : ℕ → Attempt)
    → ((rest : List Bytes) × (parse_flags args ≡ left rest)
        × IsCall rest
        × ((main true args config outcomes).0 ≡ 0))
      ⊎ ((rest : List Bytes) × (parse_flags args ≡ left rest)
          × (¬ IsCall rest)
          × (main true args config outcomes ≡ (1, [])))
      ⊎ ((parse_flags args ≡ help_requested) × (main true args config outcomes ≡ (0, [])))
      ⊎ ((parse_flags args ≡ bad_flag) × (main true args config outcomes ≡ (2, [])))
unfolding main
main-IsCall args config outcomes = of_parsed (parse_flags args)
  where
    of_parsed :
        (p : Parsed)
        → ((rest : List Bytes) × (p ≡ left rest)
            × IsCall rest
            × ((run_parsed p config outcomes).0 ≡ 0))
          ⊎ ((rest : List Bytes) × (p ≡ left rest)
              × (¬ IsCall rest)
              × (run_parsed p config outcomes ≡ (1, [])))
          ⊎ ((p ≡ help_requested) × (run_parsed p config outcomes ≡ (0, [])))
          ⊎ ((p ≡ bad_flag) × (run_parsed p config outcomes ≡ (2, [])))
    of_parsed (left rest) = elim (IsCall-cases rest) [
      | inl c ↦ inl (rest, refl, c, unfold run_parsed in run_args_accepts rest config outcomes c)
      | inr ne ↦
          inr (inl (rest, refl, ne, unfold run_parsed in run_args_rejects rest config outcomes ne))
    ]
    of_parsed help_requested = inr (inr (inl (refl, unfold run_parsed in refl)))
    of_parsed bad_flag = inr (inr (inr (refl, unfold run_parsed in refl)))
