-- ===== src/CpuInfo/Selection/Copy.antt =====
-- `GetSelections` hands out a copy of the map.
use proxmox_cpu_affinity.Base.{
  ℤ, List, [], ◌∷◌, Option, some, none, lookup, lookup-insert, insert, Unique, ==ℤ_iff, ◌≡◌, refl,
  ap, ◌∙◌, arith,
}
use proxmox_cpu_affinity.CpuInfo.Types.{CpuInfo}
use proxmox_cpu_affinity.CpuInfo.Selection.{copy_cpus, copy_entries, get_selections}
use proxmox_cpu_affinity.CpuInfo.Selection.Invariant.{IsConsistent}

copy_cpus_lem : (xs : List ℤ) → copy_cpus xs ≡ xs
unfolding copy_cpus
copy_cpus_lem [] = refl
copy_cpus_lem (x ∷ xs) = ap (◌∷◌ x) (copy_cpus_lem xs)

-- What a later map holds where an earlier one holds nothing.
abbrev or_else : Option (List ℤ) → Option (List ℤ) → Option (List ℤ)
or_else none d = d
or_else (some x) d = some x

or_else-none : (o : Option (List ℤ)) → or_else o none ≡ o
or_else-none none = refl
or_else-none (some x) = refl

lookup-copy_entries :
    (k : ℤ) (m result : List (ℤ × List ℤ))
    → Unique m
    → lookup k (copy_entries m result) ≡ or_else (lookup k m) (lookup k result)
unfolding copy_entries
lookup-copy_entries k [] result u = unfold lookup in refl
lookup-copy_entries k ((j, xs) ∷ m) result u =
    lookup-copy_entries k m (insert j (copy_cpus xs) result) u.1
    ∙ rw (lookup-insert j k (copy_cpus xs) result, copy_cpus_lem xs)
        (unfold lookup in ground (arith, ==ℤ_iff j k, u.0))

-- In a consistent state the copy holds for each VM what the service holds, and nothing for any other.
pub lookup-get_selections :
    {F : Type 0} (c : CpuInfo F) (vmid : ℤ)
    → IsConsistent c
    → lookup vmid (get_selections c) ≡ lookup vmid c.selections
unfolding get_selections lookup
lookup-get_selections c vmid v =
    lookup-copy_entries vmid c.selections [] v.unique ∙ or_else-none (lookup vmid c.selections)
