-- ===== src/Service/Accepting/Answering.antt =====
-- The accepting loop of pkg/service/service.go and its goroutines: every connection is handled once.
use proxmox_cpu_affinity.Base.{
  ℕ, suc, ◌+◌, ◌==◌, ltb, Bool-cases, if◌then◌else◌, List, [], ◌∷◌, ◌++◌, SliceSort, ◌≡◌, subst,
  arith, inl, inr, ◌∙◌,
}
use proxmox_cpu_affinity.CpuInfo.Floats.{Float64}
use proxmox_cpu_affinity.CpuInfo.Types.{Neighbor, CpuInfo}
use proxmox_cpu_affinity.CpuInfo.History.{Reachable, next, refreshes}
use proxmox_cpu_affinity.Scheduler.Mask.{CpuMask}
use proxmox_cpu_affinity.Service.Sessions.{handle_connection-Reachable}
use proxmox_cpu_affinity.Service.Accepting.{
  ServerState, listening_state, accept_connection, accept_failure, finish_connection, ServerStep,
  accepts, fails, handles, refreshed, ServerSteps, here, further,
}

-- How often a connection is in a list.
unfoldable pub count {ℓ} : {A : Type ℓ} → ℕ → List (ℕ × A) → ℕ
count n [] = 0
count n ((m, a) ∷ xs) = let rest = count n xs in if n == m then suc rest else rest

-- `1` where the two are the same connection.
hit : ℕ → ℕ → ℕ
hit n m = if n == m then 1 else 0

count-cons {ℓ} :
    {A : Type ℓ} (n m : ℕ) (a : A) (xs : List (ℕ × A))
    → count n ((m, a) ∷ xs) ≡ hit n m + count n xs
unfolding count hit
count-cons n m a xs = elim (Bool-cases (n == m)) [
  | inl e ↦ rw (e, count, hit) (omega arith)
  | inr e ↦ rw (e, count, hit) (omega arith)
]

count-append {ℓ} :
    {A : Type ℓ} (n : ℕ) (xs ys : List (ℕ × A)) → count n (xs ++ ys) ≡ count n xs + count n ys
unfolding count
count-append n [] ys = omega arith
count-append n ((m, a) ∷ xs) ys =
    count-cons n m a (xs ++ ys) ∙ rw (count-append n xs ys, count-cons n m a xs) (omega arith)

count-last {ℓ} :
    {A : Type ℓ} (n m : ℕ) (a : A) (xs : List (ℕ × A))
    → count n (xs ++ (m, a) ∷ []) ≡ count n xs + hit n m
unfolding count
count-last n m a xs = rw (count-append n xs ((m, a) ∷ []), count-cons n m a []) (omega arith)

-- `1` for the connections that were accepted.
abbrev pub was_accepted : ℕ → ℕ → ℕ
was_accepted n accepted = if ltb n accepted then 1 else 0

was_accepted-suc : (n k : ℕ) → was_accepted n (suc k) ≡ was_accepted n k + hit n k
unfolding hit
was_accepted-suc n k = ground arith

count-answered {ℓ ℓ'} :
    {A : Type ℓ} {B : Type ℓ'} (n m : ℕ) (before after : List (ℕ × A)) (ys : List (ℕ × B)) (a : A)
    (b : B)
    → count n (before ++ after) + count n (ys ++ (m, b) ∷ [])
      ≡ count n (before ++ (m, a) ∷ after) + count n ys
count-answered n m before after ys a b =
    rw
      (
        count-append n before after,
        count-last n m b ys,
        count-append n before ((m, a) ∷ after),
        count-cons n m a after,
      )
      (omega arith)

module _ (f : Float64) (sorting : SliceSort f.F) (neighbor_sorting : SliceSort (Neighbor f.F))
    (masks : CpuMask) where
  open masks use {Mask}

  -- The shared state is one that selections and updates reach, and each connection that was accepted
  -- either waits or was handled, once.
  pub record IsServing (s : ServerState f.F Mask) : Type 0 where
    pub reachable : Reachable f neighbor_sorting s.cpu_info
    pub once : (n : ℕ) → count n s.pending + count n s.answered ≡ was_accepted n s.accepted

  ServerStep-IsServing :
      {s t : ServerState f.F Mask}
      → ServerStep f sorting neighbor_sorting masks s t
      → IsServing s
      → IsServing t
  unfolding accept_connection accept_failure finish_connection
  ServerStep-IsServing {s} (accepts i e) v = record {
    reachable = v.reachable;
    once = λ n.
        let before = v.once n in
        rw (count-last n s.accepted i s.pending, was_accepted-suc n s.accepted) (omega arith);
  }
  ServerStep-IsServing (fails closed e) v = record { reachable = v.reachable; once = v.once }
  ServerStep-IsServing {s} (handles proc order h n i before after e) v = record {
    reachable =
        handle_connection-Reachable f sorting neighbor_sorting masks proc order h i s.cpu_info
          v.reachable;
    once = λ m.
        count-answered m n before after s.answered i _
        ∙ subst (λ p. count m p + count m s.answered ≡ was_accepted m s.accepted) e (v.once m);
  }
  ServerStep-IsServing (refreshed measurer rounds iterations callback topology results d e) v =
      record {
        reachable =
            next v.reachable (refreshes measurer rounds iterations callback topology results d e);
        once = v.once;
      }

  -- Whatever clients connect and in whatever order their connections are handled, with updates of the
  -- ranking in between: the shared state stays one that selections and updates reach, and each
  -- connection that was accepted either waits or was handled, once and not more often.
  pub ServerSteps-IsServing :
      (c : CpuInfo f.F) (s : ServerState f.F Mask)
      → Reachable f neighbor_sorting c
      → ServerSteps f sorting neighbor_sorting masks (listening_state c) s
      → IsServing s
  unfolding listening_state count
  ServerSteps-IsServing c _ r here = record { reachable = r; once = λ n. ground arith }
  ServerSteps-IsServing c s r (further steps step) =
      ServerStep-IsServing step (ServerSteps-IsServing c _ r steps)
