-- ===== src/Base/Maps.antt =====
-- A Go map as an association list, its newest key last. A key occurs once if every write goes
-- through `insert`.
use mathlib.Core.Path.{◌≡◌, refl, subst, ◌∙◌}
use mathlib.Core.List.{List, [], ◌∷◌}
use mathlib.Core.Option.{Option, none, some}
use mathlib.Core.Logic.{inl, inr}
use native.Mathlib.Omega.{arith}
use proxmox_cpu_affinity.Base.Tests.{if◌then◌else◌, Bool-cases, eq_of_some}
use proxmox_cpu_affinity.Base.Int.{ℤ, ◌==ℤ◌, ==ℤ_iff}
use proxmox_cpu_affinity.Base.Lists.{All}

module _ {ℓ} {V : Type ℓ} where
  -- `v, ok := m[key]`.
  unfoldable pub lookup : ℤ → List (ℤ × V) → Option V
  lookup key [] = none
  lookup key (entry ∷ rest) = if entry.0 ==ℤ key then some entry.1 else lookup key rest

  -- `m[key] = value`.
  unfoldable pub insert : ℤ → V → List (ℤ × V) → List (ℤ × V)
  insert key value [] = (key, value) ∷ []
  insert key value (entry ∷ rest) =
      let others = insert key value rest in
      if entry.0 ==ℤ key then (key, value) ∷ rest else entry ∷ others

  pub lookup-insert :
      (k j : ℤ) (v : V) (m : List (ℤ × V))
      → lookup j (insert k v m) ≡ (if k ==ℤ j then some v else lookup j m)
  unfolding lookup insert
  lookup-insert k j v [] = refl
  lookup-insert k j v ((i, w) ∷ m) =
      ground (arith, ==ℤ_iff k j, ==ℤ_iff i k, ==ℤ_iff i j, lookup-insert k j v m)

  -- What holds of each entry holds of the entry found.
  pub All-lookup {κ} :
      (P : V → Type κ) (k : ℤ) (m : List (ℤ × V)) {v : V}
      → All (λ e. P e.1) m
      → lookup k m ≡ some v
      → P v
  unfolding lookup
  All-lookup P k [] a e = cc
  All-lookup P k ((j, w) ∷ m) {v} a e = elim (Bool-cases (j ==ℤ k)) [
    | inl q ↦ subst P (eq_of_some (rw q at e)) a.0
    | inr q ↦ All-lookup P k m a.1 (rw q at e)
  ]

  pub All-insert {κ} :
      (P : V → Type κ) (k : ℤ) (v : V) (m : List (ℤ × V))
      → P v
      → All (λ e. P e.1) m
      → All (λ e. P e.1) (insert k v m)
  unfolding insert
  All-insert P k v [] h a = (h, tt)
  All-insert P k v ((j, w) ∷ m) h a = elim (Bool-cases (j ==ℤ k)) [
    | inl q ↦ rw q (h, a.1)
    | inr q ↦ rw q (a.0, All-insert P k v m h a.1)
  ]

  -- Each key occurs once.
  abbrev pub Unique : List (ℤ × V) → Type ℓ
  Unique [] = Unit
  Unique ((k, v) ∷ m) = (lookup k m ≡ none) × Unique m

  pub insert-Unique : (k : ℤ) (v : V) (m : List (ℤ × V)) → Unique m → Unique (insert k v m)
  unfolding insert
  insert-Unique k v [] u = (unfold lookup in refl, tt)
  insert-Unique k v ((j, w) ∷ m) u = elim (Bool-cases (j ==ℤ k)) [
    | inl q ↦ rw q (subst (λ i. lookup i m ≡ none) ((==ℤ_iff j k).0 q) u.0, u.1)
    | inr q ↦
        rw q (
          lookup-insert k j v m ∙ ground (arith, ==ℤ_iff k j, ==ℤ_iff j k),
          insert-Unique k v m u.1,
        )
  ]
