-- ===== src/CpuInfo/Selection/Invariant.antt =====
-- What stays true of the ranking and the selections, and what it says of the CPUs handed out.
use mathlib.Core.List.{Mem, Nodup, mem-append_left}
use mathlib.Core.List.Nodup
use mathlib.Core.List.Perm
use native.Mathlib.Nat.{mod-lt}
use proxmox_cpu_affinity.Base.{
  ℕ, ◌≤◌, ◌<◌, ℤ, pos, List, [], ◌∷◌, length, get_elem?, take, drop, map, some, Result, ok, ◌≡◌,
  refl, sym, ap, subst, ◌∙◌, ◌⊎◌, inl, inr, arith, Perm, All, All-get_elem?, All-lookup, All-insert,
  Unique, insert-Unique, take-append-drop, length-take, length-map, length-perm,
}
use proxmox_cpu_affinity.CpuInfo.Types.{CoreRanking, CpuInfo, CpuInfoError}
use proxmox_cpu_affinity.CpuInfo.Selection.{select_cpus, install}
use proxmox_cpu_affinity.CpuInfo.Selection.Outcome.{
  by_distance, Outcome, no_ranking, kept, too_few, too_many, placed, select_cpus-Outcome,
  next_index,
}

module _ {F : Type 0} where
  abbrev pub cpus : List (CoreRanking F) → List ℤ
  cpus = map (λ r. r.cpu)

  -- The nearest cores of some core, itself first.
  pub record IsSelection (cache : List (CoreRanking F)) (cores : List ℤ) : Type 0 where
    pub index : ℕ
    pub primary : CoreRanking F
    pub at : get_elem? cache index ≡ some primary
    pub size : ℕ
    pub positive : 0 < size
    pub fits : size ≤ length cache
    pub nearest : cores ≡ take size (by_distance primary)

  -- A ranking lists every core of the machine once, whichever core it is of.
  pub record IsRanked (cache : List (CoreRanking F)) : Type 0 where
    pub complete : All (λ r. Perm (by_distance r) (cpus cache)) cache
    pub distinct : Nodup (cpus cache)

  pub record IsConsistent (c : CpuInfo F) : Type 0 where
    pub ranked : IsRanked c.cache
    pub in_range : (c.cache ≡ []) ⊎ (c.last_index < length c.cache)
    pub sound : All (λ e. IsSelection c.cache e.1) c.selections
    pub unique : Unique c.selections

  pub placed_IsSelection :
      (c : CpuInfo F) (n : ℕ) (primary : CoreRanking F)
      → 0 < n
      → n ≤ length c.cache
      → get_elem? c.cache (next_index c) ≡ some primary
      → IsSelection c.cache (take n (by_distance primary))
  placed_IsSelection c n primary h k e = record {
    index = next_index c;
    primary = primary;
    at = e;
    size = n;
    positive = h;
    fits = k;
    nearest = refl;
  }

  pub Outcome-IsConsistent :
      (vmid requested : ℤ) {c : CpuInfo F} {r : Result CpuInfoError (List ℤ) × CpuInfo F}
      → IsConsistent c
      → Outcome vmid requested c r
      → IsConsistent r.1
  Outcome-IsConsistent vmid requested v (no_ranking h e) = rw e v
  Outcome-IsConsistent vmid requested v (kept cores z f s e) = rw e v
  Outcome-IsConsistent vmid requested v (too_few new h e) = rw e v
  Outcome-IsConsistent vmid requested v (too_many n new h f e) = rw e v
  Outcome-IsConsistent vmid requested {c} v (placed n primary new q h k f e) = rw e (record {
    ranked = v.ranked;
    in_range = inr (mod-lt _ (omega arith));
    sound =
        All-insert (IsSelection c.cache) vmid _ c.selections (placed_IsSelection c n primary h k f)
          v.sound;
    unique = insert-Unique vmid _ c.selections v.unique;
  })

  -- Choosing CPUs keeps the state consistent: every core is ranked once and has all others as its
  -- neighbors, the index is within the ranking, every selection is a prefix of a core and its
  -- neighbors, and a VM has one selection at most.
  pub select_cpus-IsConsistent :
      (vmid requested : ℤ) (c : CpuInfo F)
      → IsConsistent c
      → IsConsistent (select_cpus vmid requested c).1
  select_cpus-IsConsistent vmid requested c v =
      Outcome-IsConsistent vmid requested v (select_cpus-Outcome vmid requested c)

  pub install-IsConsistent :
      (results : List (CoreRanking F)) (c : CpuInfo F)
      → IsRanked results
      → IsConsistent (install results c)
  unfolding install
  install-IsConsistent [] c v = record { ranked = v; in_range = inl refl; sound = tt; unique = tt }
  install-IsConsistent (r ∷ rs) c v = record {
    ranked = v;
    in_range = inr (ground arith);
    sound = tt;
    unique = tt;
  }

  length_of :
      (cache : List (CoreRanking F)) (cores : List ℤ)
      → IsRanked cache
      → (s : IsSelection cache cores) → length cores ≡ s.size
  length_of cache cores v s =
      let whole = All-get_elem? _ cache s.index v.complete s.at in
      ap length s.nearest
      ∙ length-take s.size (by_distance s.primary)
      ∙ omega (arith, s.fits, length-perm whole, length-map (λ (r : CoreRanking F). r.cpu) cache)

  pub IsSelection-Nodup :
      (cache : List (CoreRanking F)) (cores : List ℤ)
      → IsRanked cache
      → IsSelection cache cores
      → Nodup cores
  IsSelection-Nodup cache cores v s =
      let whole = All-get_elem? _ cache s.index v.complete s.at in
      rw s.nearest (
        Nodup.of_append_left (drop s.size (by_distance s.primary))
          (rw take-append-drop (Perm.nodup (Perm.symm whole) v.distinct)))

  pub IsSelection-mem :
      (cache : List (CoreRanking F)) (cores : List ℤ)
      → IsRanked cache
      → IsSelection cache cores
      → (x : ℤ) → Mem x cores
      → Mem x (cpus cache)
  IsSelection-mem cache cores v s x m =
      let whole = All-get_elem? _ cache s.index v.complete s.at in
      (Perm.mem_iff whole).0 (
        subst (Mem x) (take-append-drop s.size (by_distance s.primary))
          (mem-append_left (drop s.size (by_distance s.primary)) (subst (Mem x) s.nearest m)))

  -- What a caller of `SelectCPUs` relies on.
  pub record IsPlacement (cache : List (CoreRanking F)) (requested : ℤ) (cores : List ℤ)
      : Type 0 where
    pub size : pos (length cores) ≡ requested
    pub distinct : Nodup cores
    pub known : (x : ℤ) → Mem x cores → Mem x (cpus cache)

  placement :
      (cache : List (CoreRanking F)) (requested : ℤ) (cores : List ℤ)
      → IsRanked cache
      → IsSelection cache cores
      → pos (length cores) ≡ requested
      → IsPlacement cache requested cores
  placement cache requested cores v s h = record {
    size = h;
    distinct = IsSelection-Nodup cache cores v s;
    known = IsSelection-mem cache cores v s;
  }

  Outcome-IsPlacement :
      (vmid requested : ℤ) {c : CpuInfo F} {r : Result CpuInfoError (List ℤ) × CpuInfo F}
      (cores : List ℤ)
      → IsConsistent c
      → Outcome vmid requested c r
      → r.0 ≡ ok cores
      → IsPlacement c.cache requested cores
  unfolding placed_IsSelection
  Outcome-IsPlacement vmid requested cores v (no_ranking h e) q = cc
  Outcome-IsPlacement vmid requested {c} cores v (kept xs z f s e) q =
      let same : xs ≡ cores = cc in
      subst (IsPlacement c.cache requested) same
        (placement c.cache requested xs v.ranked (All-lookup _ vmid c.selections v.sound f) s)
  Outcome-IsPlacement vmid requested cores v (too_few new h e) q = cc
  Outcome-IsPlacement vmid requested cores v (too_many n new h f e) q = cc
  Outcome-IsPlacement vmid requested {c} cores v (placed n primary new h k f g e) q =
      let s = placed_IsSelection c n primary k f g in
      let same : take n (by_distance primary) ≡ cores = cc in
      subst (IsPlacement c.cache requested) same
        (placement c.cache requested _ v.ranked s (ap pos (length_of c.cache _ v.ranked s) ∙ sym h))

  -- In a consistent state a successful call returns as many CPUs as requested, no CPU twice, and
  -- only CPUs that the ranking knows.
  pub select_cpus-IsPlacement :
      (vmid requested : ℤ) (c : CpuInfo F) (cores : List ℤ)
      → IsConsistent c
      → (select_cpus vmid requested c).0 ≡ ok cores
      → IsPlacement c.cache requested cores
  select_cpus-IsPlacement vmid requested c cores v q =
      Outcome-IsPlacement vmid requested cores v (select_cpus-Outcome vmid requested c) q
