-- ===== src/Examples/Machine.antt =====
-- A machine with three CPUs on two sockets, two VMs that may run on it, and the parts of the model
-- that are parameters.
use mathlib.Core.HLevel.{⊥_prop}
use mathlib.Core.Logic.{∥∥₁_elim}
use mathlib.Core.List.{Nodup, Nodup-nil, Nodup-cons, Memᴰ}
use proxmox_cpu_affinity.Base.{
  not, ◌&&◌, ◌≢◌, sym, ==ℤ_iff, ℕ, ◌+◌, ◌/◌, ◌==◌, ltb, ℤ, pos, negsuc, ◌==ℤ◌, ltb_ℤ, Bool, true,
  false, if◌then◌else◌, List, [], ◌∷◌, Option, none, some, Bytes, codes, ◌==ᵇ◌, StrictWeakOrder,
  Result, ok, err, arith, insertion, ◌≡◌, refl,
}
use proxmox_cpu_affinity.CpuInfo.Types.{CoreInfo, Neighbor, CoreRanking, CpuInfo}
use proxmox_cpu_affinity.CpuInfo.Floats.{Float64, LatencyLaws}
use proxmox_cpu_affinity.CpuInfo.Update.{measure_all}
use proxmox_cpu_affinity.Proxmox.{VmConfig, Host, missing, content}
use proxmox_cpu_affinity.Scheduler.Mask.{CpuMask}
use proxmox_cpu_affinity.Scheduler.Processes.{ProcFs}

-- Latencies in whole nanoseconds.
abbrev pub whole : Float64
whole = record {
  F = ℕ;
  of_int = λ z. elim z [ pos n ↦ n | negsuc n ↦ 0 ];
  add = λ a b. a + b;
  div = λ a b. a / b;
  less = ltb;
}

pub whole_order : StrictWeakOrder (λ _. Unit {0}) ltb
whole_order = record {
  asymm = λ a b _ _ h. ground arith;
  le_trans = λ a b c _ _ _ h k. ground arith;
}

abbrev pub whole_laws : LatencyLaws whole
whole_laws = record {
  IsLatency = λ _. Unit;
  zero-IsLatency = tt;
  add-IsLatency = λ a b _ _. tt;
  div-IsLatency = λ a n _ _. tt;
  order = whole_order;
}

abbrev pub topology : List CoreInfo
topology =
    record { cpu = pos 0; socket = pos 0; core = pos 0 }
    ∷ record { cpu = pos 1; socket = pos 0; core = pos 1 }
    ∷ record { cpu = pos 2; socket = pos 1; core = pos 0 }
    ∷ []

-- The measurements take 90, 40, 80, 30, ... nanoseconds in turn.
abbrev pub measurer : ℕ → ℤ → ℤ → ℤ → Result ℕ ℕ
measurer k a b n =
    if k == 0 then ok 90 else if k == 1 then ok 40 else if k == 2 then ok 80 else ok 30

abbrev near : ℤ → ℤ → ℤ → ℕ → Neighbor ℕ
near cpu socket core lat = record { cpu = cpu; socket = socket; core = core; latency_ns = lat }

-- The ranking of the machine.
abbrev pub ranking : List (CoreRanking ℕ)
ranking =
    record {
      cpu = pos 0;
      ranking = near (pos 2) (pos 1) (pos 0) 40 ∷ near (pos 1) (pos 0) (pos 1) 90 ∷ [];
    }
    ∷ record {
      cpu = pos 1;
      ranking = near (pos 2) (pos 1) (pos 0) 30 ∷ near (pos 0) (pos 0) (pos 0) 80 ∷ [];
    }
    ∷ record {
      cpu = pos 2;
      ranking = near (pos 0) (pos 0) (pos 0) 30 ∷ near (pos 1) (pos 0) (pos 1) 30 ∷ [];
    }
    ∷ []

-- The state of the service after its first `Update`.
abbrev pub ready : CpuInfo ℕ
ready = record { cache = ranking; last_index = 0; selections = [] }

pub measure_all_test :
    measure_all whole measurer insertion (pos 1) (pos 10) false topology ≡ ok ranking
unfolding measure_all proxmox_cpu_affinity.Base.insertion_sort
measure_all_test = refl

-- The numbers from 0 to 1023, as a list of those that are set.
abbrev holds : List ℤ → ℤ → Bool
holds [] c = false
holds (x ∷ xs) c = if x ==ℤ c then true else holds xs c

abbrev in_mask : ℤ → Bool
in_mask (pos n) = ltb n 1024
in_mask (negsuc n) = false

pub set_in_mask :
    (c d : ℤ) (m : List ℤ)
    → holds (if in_mask c then c ∷ m else m) d
      ≡ (if c ==ℤ d then (if in_mask c then true else holds m d) else holds m d)
set_in_mask c d m = ground arith

abbrev pub list_mask : CpuMask
list_mask = record {
  Mask = List ℤ;
  empty = [];
  set = λ c m. if in_mask c then c ∷ m else m;
  is_set = holds;
  fits = in_mask;
  is_set-empty = λ c. refl;
  is_set-set = set_in_mask;
}

abbrev pub small_vm : VmConfig
small_vm = record { cores = pos 2; sockets = pos 0; affinity = []; hook_script = [] }

-- VM 100 runs as process 4711.
abbrev pub host : Host
host = record {
  hostname = codes "node1.example";
  output = λ c. some (codes "{}");
  unmarshal = λ text. some small_vm;
  read_file = λ path.
      if path ==ᵇ codes "/var/run/qemu-server/100.pid" then content (codes "4711") else missing;
  process_exists = λ pid. true;
}

-- The process has a second thread, and a child without threads of its own.
abbrev pub proc : ProcFs
proc = record {
  task = λ t pid. if pid ==ℤ pos 4711 then some (codes "4711" ∷ codes "4712" ∷ []) else none;
  children = λ t pid tid. if tid ==ℤ pos 4712 then some (codes "4800 ") else none;
}

abbrev absent : ℤ → List ℤ → Bool
absent x [] = true
absent x (y ∷ ys) = not (x ==ℤ y) && absent x ys

absent-ne : (x y : ℤ) (ys : List ℤ) → absent x ys ≡ true → Memᴰ y ys → x ≢ y
absent-ne x y [] h m = elim m [ ]
absent-ne x y (z ∷ ys) h (Memᴰ.head e) = ground (arith, e, ==ℤ_iff x z)
absent-ne x y (z ∷ ys) h (Memᴰ.tail m) = absent-ne x y ys (ground arith) m

abbrev pub all_distinct : List ℤ → Bool
all_distinct [] = true
all_distinct (x ∷ xs) = absent x xs && all_distinct xs

-- A list of numbers that a test finds distinct.
pub all_distinct-Nodup : (xs : List ℤ) → all_distinct xs ≡ true → Nodup xs
all_distinct-Nodup [] h = Nodup-nil
all_distinct-Nodup (x ∷ xs) h = Nodup-cons.1 (
  λ m. ∥∥₁_elim m ⊥_prop (λ d. absent-ne x x xs (ground arith) d refl),
  all_distinct-Nodup xs (ground arith),
)

pub pos-ne : (a b : ℕ) → (a == b) ≡ false → pos a ≢ pos b
pos-ne a b h e = ground (arith, e, ==ℤ_iff (pos a) (pos b))

-- The configuration as the service reads it.
abbrev pub placed_vm : VmConfig
placed_vm = record { cores = pos 2; sockets = pos 1; affinity = []; hook_script = [] }
