-- ===== src/CpuInfo/Selection/Rotation.antt =====
-- The starting CPU goes round all cores: even distribution over the machine.
use mathlib.Core.List.{perm_append_comm}
use native.Mathlib.Nat.{mod-eq_of_lt, add-zero, zero-add, mod_self}
use proxmox_cpu_affinity.Base.{
  ℕ, zero, suc, ◌+◌, ◌-◌, ◌%◌, ◌≤◌, ◌<◌, ℤ, pos, ==ℤ_iff, List, [], ◌∷◌, ◌++◌, length, get_elem?,
  get_elem?_total, get_elem?-map, take, drop, take-append-drop, take_all, length-drop, append-nil,
  ap₂, drop-get_elem?, length-map, some, none, Result, ok, lookup, lookup-insert, ◌≡◌, ◌≢◌, refl,
  sym, ap, subst, ◌∙◌, arith, All, Perm,
}
use proxmox_cpu_affinity.CpuInfo.Types.{CoreRanking, CpuInfo}
use proxmox_cpu_affinity.CpuInfo.Selection.{select_cpus}
use proxmox_cpu_affinity.CpuInfo.Selection.Outcome.{
  Outcome, no_ranking, kept, too_few, too_many, placed, select_cpus-Outcome, by_distance,
  next_index, placed_state,
}
use proxmox_cpu_affinity.CpuInfo.Selection.Invariant.{cpus}

-- `k` steps round the list, from behind index `i`.
walk : List ℤ → ℕ → ℕ → List ℤ
walk xs zero i = []
walk xs (suc k) i = elim (get_elem? xs ((i + 1) % length xs)) [
  | none ↦ []
  | some x ↦ x ∷ walk xs k ((i + 1) % length xs)
]

walk_step :
    (xs : List ℤ) (k i j : ℕ) {x : ℤ}
    → (i + 1) % length xs ≡ j
    → get_elem? xs j ≡ some x
    → walk xs (suc k) i ≡ x ∷ walk xs k j
unfolding walk
walk_step xs k i j m e = rw (m, e, walk) (rw m)

-- Steps that stay within the list.
walk_straight :
    (xs : List ℤ) (k l i : ℕ)
    → i + k < length xs
    → walk xs (k + l) i ≡ take k (drop (suc i) xs) ++ walk xs l (i + k)
walk_straight xs zero l i h = rw (add-zero, zero-add)
walk_straight xs (suc k) l i h =
    let (x, e) = get_elem?_total xs (suc i) (omega arith) in
    let m : (i + 1) % length xs ≡ suc i = grind (arith, mod-eq_of_lt) in
    subst (λ s. walk xs s i ≡ take (suc k) (drop (suc i) xs) ++ walk xs l (i + suc k))
      {x = suc (k + l)} (omega arith)
      (rw (drop-get_elem? xs (suc i) e) (
        walk_step xs (k + l) i (suc i) m e
        ∙ ap (◌∷◌ x) (
            walk_straight xs k l (suc i) (omega arith)
            ∙ ap (λ s. take k (drop (suc (suc i)) xs) ++ walk xs l s) (omega arith))))

walk_home :
    (xs : List ℤ) (i j : ℕ)
    → suc j ≡ length xs
    → i < length xs
    → walk xs (suc i) j ≡ take (suc i) xs
walk_home [] i j h k = elim k [ ]
walk_home (x ∷ xs) i j h k =
    walk_step (x ∷ xs) i j 0 wraps refl
    ∙ ap (◌∷◌ x) (
        ap (λ s. walk (x ∷ xs) s 0) (sym (add-zero i))
        ∙ walk_straight (x ∷ xs) i 0 0 (omega arith)
        ∙ unfold walk in append-nil (take i xs))
  where
    wraps : (j + 1) % length (x ∷ xs) ≡ 0
    wraps = subst (λ t. t % length (x ∷ xs) ≡ 0) (omega arith) (mod_self (length (x ∷ xs)))

-- A whole round meets each core once, wherever it starts.
walk-perm : (xs : List ℤ) (i : ℕ) → i < length xs → Perm (walk xs (length xs) i) xs
walk-perm xs i h =
    subst (λ ys. Perm ys xs) (sym route)
      (rw take-append-drop at (perm_append_comm (drop (suc i) xs) (take (suc i) xs)))
  where
    k : ℕ
    k = length xs - suc i

    route : walk xs (length xs) i ≡ drop (suc i) xs ++ take (suc i) xs
    route =
        ap (λ s. walk xs s i) (omega arith)
        ∙ walk_straight xs k (suc i) i (omega arith)
        ∙ ap₂ (λ a b. a ++ b) (take_all k (drop (suc i) xs) (omega (arith, length-drop (suc i) xs)))
            (walk_home xs i (i + k) (omega arith) h)

-- The starting CPU of a result.
abbrev start_of : {E : Type 0} → Result E (List ℤ) → List ℤ
start_of (ok (x ∷ xs)) = x ∷ []
start_of _ = []

-- Each call is for another VM.
abbrev pub AllDistinct : List (ℤ × ℕ) → Type 0
AllDistinct [] = Unit
AllDistinct (call ∷ calls) = All (λ other. other.0 ≢ call.0) calls × AllDistinct calls

module _ {F : Type 0} where
  -- The starting CPUs of calls for VMs and numbers of CPUs, in the order of the calls.
  unfoldable pub starts : List (ℤ × ℕ) → CpuInfo F → List ℤ
  starts [] c = []
  starts ((vmid, n) ∷ calls) c =
      start_of (select_cpus vmid (pos n) c).0 ++ starts calls (select_cpus vmid (pos n) c).1

  -- The VM has no selection yet, and the number can be met.
  abbrev pub IsNew : CpuInfo F → ℤ × ℕ → Type 0
  IsNew c (vmid, n) = (lookup vmid c.selections ≡ none) × (0 < n) × (n ≤ length c.cache)

  abbrev Places : ℤ → ℕ → CpuInfo F → Type 0
  Places vmid n c =
      (primary : CoreRanking F) × (get_elem? c.cache (next_index c) ≡ some primary)
      × (select_cpus vmid (pos n) c
          ≡ (ok (take n (by_distance primary)), placed_state vmid (take n (by_distance primary)) c))

  Outcome-Places :
      (vmid : ℤ) (n : ℕ) (c : CpuInfo F)
      → IsNew c (vmid, n)
      → Outcome vmid (pos n) c (select_cpus vmid (pos n) c)
      → Places vmid n c
  Outcome-Places vmid n c h (no_ranking g e) = absurd (omega (arith, h.1, h.2, ap length g))
  Outcome-Places vmid n c h (kept xs z f s e) = cc (h.0)
  Outcome-Places vmid n c h (too_few v g e) = absurd (omega arith)
  Outcome-Places vmid n c h (too_many m v g f e) = absurd (ground arith)
  Outcome-Places vmid n c h (placed m primary v g k f i e) =
      let same : m ≡ n = cc in
      (
        primary,
        i,
        subst
            (λ k. select_cpus vmid (pos n) c ≡ (
              ok (take k (by_distance primary)),
              placed_state vmid (take k (by_distance primary)) c,
            ))
            same e,
      )

  IsNew-placed_state :
      (vmid : ℤ) (cores : List ℤ) (c : CpuInfo F) (calls : List (ℤ × ℕ))
      → All (λ other. other.0 ≢ vmid) calls
      → All (IsNew c) calls
      → All (IsNew (placed_state vmid cores c)) calls
  IsNew-placed_state vmid cores c [] d h = tt
  IsNew-placed_state vmid cores c ((other, n) ∷ calls) d h = (
    (
      lookup-insert vmid other cores c.selections ∙ ground (arith, ==ℤ_iff vmid other),
      h.0.1,
      h.0.2,
    ),
    IsNew-placed_state vmid cores c calls d.1 h.1,
  )

  starts-walk :
      (calls : List (ℤ × ℕ)) (c : CpuInfo F)
      → AllDistinct calls
      → All (IsNew c) calls
      → starts calls c ≡ walk (cpus c.cache) (length calls) c.last_index
  unfolding starts walk
  starts-walk [] c d h = refl
  starts-walk ((vmid, zero) ∷ calls) c d h = absurd (omega (arith, h.0.1))
  starts-walk ((vmid, suc m) ∷ calls) c d h =
      let (primary, found, q) =
        Outcome-Places vmid (suc m) c h.0 (select_cpus-Outcome vmid (pos (suc m)) c) in
      let cores = take (suc m) (by_distance primary) in
      rw q (
        ap (◌∷◌ primary.cpu) (
          starts-walk calls (placed_state vmid cores c) d.1
            (IsNew-placed_state vmid cores c calls d.0 h.1))
        ∙ sym (
            walk_step (cpus c.cache) (length calls) c.last_index (next_index c)
              (rw (length-map (λ (r : CoreRanking F). r.cpu) c.cache))
              (get_elem?-map (λ r. r.cpu) c.cache (next_index c) found)))

  -- As many different VMs as there are cores, none of which has a selection yet, and each asking for
  -- a number of CPUs that can be met, start on each core once, from any index within the ranking.
  pub starts-perm :
      (calls : List (ℤ × ℕ)) (c : CpuInfo F)
      → c.last_index < length c.cache
      → AllDistinct calls
      → All (IsNew c) calls
      → length calls ≡ length c.cache
      → Perm (starts calls c) (cpus c.cache)
  starts-perm calls c r d h e =
      let size = length-map (λ (q : CoreRanking F). q.cpu) c.cache in
      subst (λ xs. Perm xs (cpus c.cache))
        (ap (λ k. walk (cpus c.cache) k c.last_index) (size ∙ sym e)
          ∙ sym (starts-walk calls c d h))
        (walk-perm (cpus c.cache) c.last_index (omega (arith, size)))
