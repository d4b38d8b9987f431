-- ===== src/CpuInfo/Topology.antt =====
-- `detectTopologySystem` and `readSysFSInt` of pkg/cpuinfo/cpuinfo.go. What sysfs holds is a
-- parameter: the paths that the glob finds, and the content of each file behind its symbolic links.
use mathlib.Core.List.{Sublistᴰ, Nodup}
use mathlib.Core.List.Nodup
use mathlib.Core.List.Perm
use proxmox_cpu_affinity.Base.{
  ℕ, ℤ, negsuc, ltb_ℤ, ltb_ℤ_asymm, ltb_ℤ_trans, Bool, List, [], ◌∷◌, ◌++◌, map, Option, none, some,
  Option-cases, Bytes, codes, base_name, trim_prefix, trim_space, atoi, itoa, Result, ok, err,
  eq_of_ok, SliceSort, IsSorted, StrictWeakOrder, All, ◌≡◌, refl, subst, inl, inr,
}
use proxmox_cpu_affinity.CpuInfo.Types.{CoreInfo}

pub record SysFs : Type 0 where
  pub glob : Result ℕ (List Bytes)
  pub read_file : Bytes → Option Bytes

read_sysfs_int : SysFs → Bytes → Option ℤ
read_sysfs_int sys path = elim (sys.read_file path) [
  | none ↦ none
  | some content ↦ atoi (trim_space content)
]

topology_file : ℤ → Bytes → Bytes
topology_file i name =
    codes "/sys/devices/system/cpu/cpu" ++ (itoa i ++ (codes "/topology/" ++ name))

-- `-1` where the core id cannot be read.
core_id : Option ℤ → ℤ
core_id none = negsuc 0
core_id (some id) = id

-- The number in the name of a path, if it is one.
cpu_number : Bytes → Option ℤ
cpu_number path = atoi (trim_prefix (codes "cpu") (base_name path))

-- One round of the loop: `none` is `continue`.
core_at : SysFs → Bytes → Option CoreInfo
unfolding read_sysfs_int topology_file core_id cpu_number
core_at sys path = elim (cpu_number path) [
  | none ↦ none
  | some i ↦ elim (read_sysfs_int sys (topology_file i (codes "physical_package_id"))) [
    | none ↦ none
    | some socket ↦ some (record {
      cpu = i;
      socket = socket;
      core = core_id (read_sysfs_int sys (topology_file i (codes "core_id")));
    })
  ]
]

push_core : Option CoreInfo → List CoreInfo → List CoreInfo
push_core none cores = cores
push_core (some c) cores = c ∷ cores

cores_of : SysFs → List Bytes → List CoreInfo
unfolding core_at push_core
cores_of sys [] = []
cores_of sys (path ∷ paths) = push_core (core_at sys path) (cores_of sys paths)

abbrev pub by_cpu : CoreInfo → CoreInfo → Bool
by_cpu a b = ltb_ℤ a.cpu b.cpu

unfoldable pub detect_topology_system : SliceSort CoreInfo → SysFs → Result ℕ (List CoreInfo)
unfolding cores_of
detect_topology_system sorting sys = elim sys.glob [
  | err e ↦ err e
  | ok paths ↦ ok (sorting.sort by_cpu (cores_of sys paths))
]

-- The CPU numbers that the paths name.
unfoldable pub numbers : List Bytes → List ℤ
unfolding cpu_number
numbers [] = []
numbers (path ∷ paths) = elim (cpu_number path) [
  | none ↦ numbers paths
  | some i ↦ i ∷ numbers paths
]

cores_of-sublist :
    (sys : SysFs) (paths : List Bytes)
    → Sublistᴰ (map (λ c. c.cpu) (cores_of sys paths)) (numbers paths)
unfolding cores_of numbers
cores_of-sublist sys [] = Sublistᴰ.slnil
cores_of-sublist sys (path ∷ paths) = elim (Option-cases (cpu_number path)) [
  | inl e ↦ rw (e, core_at, numbers) (cores_of-sublist sys paths)
  | inr (i, e) ↦
      elim (Option-cases (read_sysfs_int sys (topology_file i (codes "physical_package_id")))) [
        | inl q ↦ rw (e, q, core_at, numbers) (Sublistᴰ.cons (cores_of-sublist sys paths))
        | inr (socket, q) ↦
            rw (e, q, core_at, numbers) (Sublistᴰ.cons-cons refl (cores_of-sublist sys paths))
      ]
]

cpu_order : StrictWeakOrder (λ _. Unit) by_cpu
cpu_order = record {
  asymm = λ a b _ _ h. ltb_ℤ_asymm a.cpu b.cpu h;
  le_trans = λ a b c _ _ _ h k. ltb_ℤ_trans a.cpu b.cpu c.cpu h k;
}

All-Unit : (cores : List CoreInfo) → All (λ _. Unit {0}) cores
All-Unit [] = tt
All-Unit (c ∷ cores) = (tt, All-Unit cores)

-- What `DetectTopology` returns is in the order of the CPU numbers, and holds no CPU twice if
-- sysfs lists no CPU number twice.
pub detect_topology_system_lem :
    (sorting : SliceSort CoreInfo) (sys : SysFs) (paths : List Bytes) (topology : List CoreInfo)
    → sys.glob ≡ ok paths
    → Nodup (numbers paths)
    → detect_topology_system sorting sys ≡ ok topology
    → IsSorted by_cpu topology × Nodup (map (λ c. c.cpu) topology)
unfolding detect_topology_system
detect_topology_system_lem sorting sys paths topology g d e =
    let found = sorting.sort by_cpu (cores_of sys paths) in
    let same : found ≡ topology = eq_of_ok (rw (g, detect_topology_system) at e) in
    subst (λ t. IsSorted by_cpu t × Nodup (map (λ (c : CoreInfo). c.cpu) t)) same
      (
        sorting.sort-IsSorted _ by_cpu cpu_order _ (All-Unit (cores_of sys paths)),
        Perm.nodup
            (Perm.symm (Perm.map (λ c. c.cpu) (sorting.sort-perm by_cpu (cores_of sys paths))))
            (Nodup.sublist ∣ cores_of-sublist sys paths ∣₁ d),
      )
