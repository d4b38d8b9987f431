-- ===== src/Base/Sorting.antt =====
-- Go's `sort.Slice` and `sort.Ints`. The order of equal elements is not specified, so the code's
-- calls go through `SliceSort`, which says what the package documents; insertion sort is one
-- function that meets it.
use mathlib.Core.Path.{◌≡◌}
use mathlib.Core.Logic.{inl, inr}
use mathlib.Core.Bool.{Bool, true, false}
use mathlib.Core.List.{List, [], ◌∷◌, Perm}
use mathlib.Core.List.Perm
use proxmox_cpu_affinity.Base.Tests.{if◌then◌else◌, Bool-cases}
use proxmox_cpu_affinity.Base.Lists.{All}

module _ {ℓ} {A : Type ℓ} where
  -- What the package asks of `less`: a strict weak order, on the values that are sorted.
  pub record StrictWeakOrder (Valid : A → Type 0) (less : A → A → Bool) : Type ℓ where
    pub asymm : (a b : A) → Valid a → Valid b → less a b ≡ true → less b a ≡ false
    pub le_trans :
        (a b c : A)
        → Valid a
        → Valid b
        → Valid c
        → less b a ≡ false
        → less c b ≡ false
        → less c a ≡ false

  -- No later element is less than an earlier one.
  abbrev pub IsSorted : (A → A → Bool) → List A → Type ℓ
  IsSorted less [] = Unit
  IsSorted less (x ∷ xs) = All (λ y. less y x ≡ false) xs × IsSorted less xs

  insert_sorted : (A → A → Bool) → A → List A → List A
  insert_sorted less x [] = x ∷ []
  insert_sorted less x (y ∷ ys) = if less y x then y ∷ insert_sorted less x ys else x ∷ y ∷ ys

  unfoldable pub insertion_sort : (A → A → Bool) → List A → List A
  unfolding insert_sorted
  insertion_sort less [] = []
  insertion_sort less (x ∷ xs) = insert_sorted less x (insertion_sort less xs)

  insert_sorted-perm :
      (less : A → A → Bool) (x : A) (ys : List A) → Perm (insert_sorted less x ys) (x ∷ ys)
  unfolding insert_sorted
  insert_sorted-perm less x [] = Perm.rfl
  insert_sorted-perm less x (y ∷ ys) = elim (Bool-cases (less y x)) [
    | inl e ↦ rw e (Perm.trans (Perm.cons y (insert_sorted-perm less x ys)) (Perm.swap x y ys))
    | inr e ↦ rw e Perm.rfl
  ]

  pub insertion_sort-perm : (less : A → A → Bool) (xs : List A) → Perm (insertion_sort less xs) xs
  unfolding insertion_sort
  insertion_sort-perm less [] = Perm.rfl
  insertion_sort-perm less (x ∷ xs) =
      Perm.trans (insert_sorted-perm less x (insertion_sort less xs))
        (Perm.cons x (insertion_sort-perm less xs))

  module _ (Valid : A → Type 0) (less : A → A → Bool) (o : StrictWeakOrder Valid less) where
    insert_sorted-Valid :
        (x : A) (ys : List A) → Valid x → All Valid ys → All Valid (insert_sorted less x ys)
    unfolding insert_sorted
    insert_sorted-Valid x [] vx vs = (vx, tt)
    insert_sorted-Valid x (y ∷ ys) vx (vy, vs) = elim (Bool-cases (less y x)) [
      | inl e ↦ rw e (vy, insert_sorted-Valid x ys vx vs)
      | inr e ↦ rw e (vx, (vy, vs))
    ]

    insertion_sort-Valid : (xs : List A) → All Valid xs → All Valid (insertion_sort less xs)
    unfolding insertion_sort
    insertion_sort-Valid [] vs = tt
    insertion_sort-Valid (x ∷ xs) (vx, vs) =
        insert_sorted-Valid x (insertion_sort less xs) vx (insertion_sort-Valid xs vs)

    All-le :
        (x y : A) (ys : List A)
        → Valid x
        → Valid y
        → All Valid ys
        → less y x ≡ false
        → All (λ z. less z y ≡ false) ys
        → All (λ z. less z x ≡ false) ys
    All-le x y [] vx vy vs h a = tt
    All-le x y (z ∷ ys) vx vy (vz, vs) h (p, a) =
        (o.le_trans x y z vx vy vz h p, All-le x y ys vx vy vs h a)

    All-insert_sorted :
        (x y : A) (ys : List A)
        → less x y ≡ false
        → All (λ z. less z y ≡ false) ys
        → All (λ z. less z y ≡ false) (insert_sorted less x ys)
    unfolding insert_sorted
    All-insert_sorted x y [] h a = (h, tt)
    All-insert_sorted x y (z ∷ ys) h (p, a) = elim (Bool-cases (less z x)) [
      | inl e ↦ rw e (p, All-insert_sorted x y ys h a)
      | inr e ↦ rw e (h, (p, a))
    ]

    insert_sorted-IsSorted :
        (x : A) (ys : List A)
        → Valid x
        → All Valid ys
        → IsSorted less ys
        → IsSorted less (insert_sorted less x ys)
    unfolding insert_sorted
    insert_sorted-IsSorted x [] vx vs s = (tt, tt)
    insert_sorted-IsSorted x (y ∷ ys) vx (vy, vs) (a, s) = elim (Bool-cases (less y x)) [
      | inl e ↦
          rw e
            (All-insert_sorted x y ys (o.asymm y x vy vx e) a, insert_sorted-IsSorted x ys vx vs s)
      | inr e ↦ rw e ((e, All-le x y ys vx vy vs e a), (a, s))
    ]

    pub insertion_sort-IsSorted :
        (xs : List A) → All Valid xs → IsSorted less (insertion_sort less xs)
    unfolding insertion_sort
    insertion_sort-IsSorted [] vs = tt
    insertion_sort-IsSorted (x ∷ xs) (vx, vs) =
        insert_sorted-IsSorted x (insertion_sort less xs) vx (insertion_sort-Valid xs vs)
          (insertion_sort-IsSorted xs vs)

-- A sorting function, and what the package documents of it.
pub record SliceSort {ℓ} (A : Type ℓ) : Type (ℓ ⊔ 1) where
  pub sort : (A → A → Bool) → List A → List A
  pub sort-perm : (less : A → A → Bool) (xs : List A) → Perm (sort less xs) xs
  pub sort-IsSorted :
      (Valid : A → Type 0) (less : A → A → Bool)
      → StrictWeakOrder Valid less
      → (xs : List A) → All Valid xs
      → IsSorted less (sort less xs)

abbrev pub insertion {ℓ} : {A : Type ℓ} → SliceSort A
insertion = record {
  sort = insertion_sort;
  sort-perm = insertion_sort-perm;
  sort-IsSorted = insertion_sort-IsSorted;
}
