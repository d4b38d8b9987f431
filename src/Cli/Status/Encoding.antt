-- ===== src/Cli/Status/Encoding.antt =====
-- What encoding/json makes of the data of a response: an interface, with what its documentation says.
use proxmox_cpu_affinity.Base.{
  suc, leb, ◌^◌, ◌≤◌, All, ◌&&◌, Bool, pos, negsuc, ℤ, true, false, List, [], ◌∷◌, Option, none,
  some, Bytes, lookup, ◌≡◌,
}
use proxmox_cpu_affinity.CpuInfo.Types.{Neighbor, CoreRanking}
use proxmox_cpu_affinity.CpuInfo.Summary.{TopologyStats}
use proxmox_cpu_affinity.Service.{Payload, pong, ranking, summary, selections, Failure}
use proxmox_cpu_affinity.Cli.Status.Types.{Decoder}

-- A whole number that a float64 holds, which a number read without a type becomes.
unfoldable pub exact_int : ℤ → Bool
exact_int (pos n) = leb n (2 ^ 53)
exact_int (negsuc n) = leb (suc n) (2 ^ 53)

-- The numbers of CPUs, sockets and cores in a ranking, and the CPUs of selections.
unfoldable pub ExactRankings : {F : Type 0} → List (CoreRanking F) → Type 0
ExactRankings = All λ r.
    (exact_int r.cpu ≡ true)
    × All (λ n. (exact_int n.cpu ≡ true) × (exact_int n.socket ≡ true) × (exact_int n.core ≡ true))
        r.ranking

unfoldable pub ExactStats : {F : Type 0} → TopologyStats F → Type 0
ExactStats s = (s.cpu_count ≤ 2 ^ 53) × (s.socket_count ≤ 2 ^ 53)

unfoldable pub ExactSelections : List (ℤ × List ℤ) → Type 0
ExactSelections = All λ e. All (λ cpu. exact_int cpu ≡ true) e.1

-- Whether all the latencies are finite numbers.
pub finite_neighbors : {F : Type 0} → (F → Bool) → List (Neighbor F) → Bool
finite_neighbors finite [] = true
finite_neighbors finite (n ∷ ns) = finite n.latency_ns && finite_neighbors finite ns

pub finite_rankings : {F : Type 0} → (F → Bool) → List (CoreRanking F) → Bool
unfolding finite_neighbors
finite_rankings finite [] = true
finite_rankings finite (r ∷ rs) = finite_neighbors finite r.ranking && finite_rankings finite rs

pub finite_stats : {F : Type 0} → (F → Bool) → TopologyStats F → Bool
finite_stats finite s =
    finite s.min_latency_ns
    && (finite s.max_latency_ns && (finite s.median_latency_ns && finite s.mean_latency_ns))

-- How encoding/json writes the data of a response, and what the client reads back: it refuses a
-- float64 that is infinite or no number, and then writes nothing. The client reads a value without a
-- type first, so a whole number comes back where a float64 holds it. The text of a failure is sent. A
-- map comes back with the same entries, in any order.
pub record Encoding {F : Type 0} (d : Decoder F) : Type 0 where
  pub encode : Payload F → Option d.Json
  pub describe : Failure → Bytes
  pub finite : F → Bool
  pub pong_read : (v : d.Json) × (encode pong ≡ some v) × (d.is_pong v ≡ true)
  pub rankings_read :
      (rs : List (CoreRanking F))
      → finite_rankings finite rs ≡ true
      → ExactRankings rs
      → (v : d.Json) × (encode (ranking rs) ≡ some v) × (d.rankings v ≡ some rs)
  pub rankings_refused :
      (rs : List (CoreRanking F)) → finite_rankings finite rs ≡ false → encode (ranking rs) ≡ none
  pub stats_read :
      (s : TopologyStats F)
      → finite_stats finite s ≡ true
      → ExactStats s
      → (v : d.Json) × (encode (summary s) ≡ some v) × (d.stats v ≡ some s)
  pub stats_refused :
      (s : TopologyStats F) → finite_stats finite s ≡ false → encode (summary s) ≡ none
  pub selections_read :
      (m : List (ℤ × List ℤ))
      → ExactSelections m
      → (n : List (ℤ × List ℤ)) × (v : d.Json) × (encode (selections m) ≡ some v)
        × (d.selections v ≡ some n)
        × ((key : ℤ) → lookup key n ≡ lookup key m)
