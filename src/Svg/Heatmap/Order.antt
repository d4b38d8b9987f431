-- ===== src/Svg/Heatmap/Order.antt =====
-- What `New` keeps of its arguments, and the order of rows and columns.
use proxmox_cpu_affinity.Base.{
  ℤ, pos, ltb_ℤ, ◌==ℤ◌, List, [], ◌∷◌, ◌++◌, map, append_assoc, append-nil, Bytes, Perm, IsSorted,
  All, StrictWeakOrder, SliceSort, ◌≡◌, refl, sym, ap, ◌∙◌, subst, not, ==ℤ_iff, ltb_ℤ_asymm,
  ltb_ℤ_trans, if◌then◌else◌, Bool, Bool, false, true, arith, negsuc,
}
use proxmox_cpu_affinity.CpuInfo.Floats.{Float64}
use proxmox_cpu_affinity.CpuInfo.Types.{Neighbor, CoreRanking}
use proxmox_cpu_affinity.CpuInfo.Summary.{TopologyStats}
use proxmox_cpu_affinity.Svg.Types.{ColorFloat, Mode, Heatmap}
use proxmox_cpu_affinity.Svg.Heatmap.{
  by_socket, take_neighbors, take_rankings, prepare_data, start_heatmap, new_heatmap, socket_of,
}

module _ {F : Type 0} where
  record IsKept (h k : Heatmap F) : Type 0 where
    kept_rankings : k.rankings ≡ h.rankings
    kept_affinity : k.affinity ≡ h.affinity
    kept_mode : k.mode ≡ h.mode

  take_neighbors-IsKept :
      (src : ℤ) (ns : List (Neighbor F)) (h : Heatmap F)
      → IsKept h (take_neighbors src ns h) × ((take_neighbors src ns h).cpu_ids ≡ h.cpu_ids)
  unfolding take_neighbors
  take_neighbors-IsKept src [] h =
      (record { kept_rankings = refl; kept_affinity = refl; kept_mode = refl }, refl)
  take_neighbors-IsKept src (n ∷ ns) h =
      let (k, e) = take_neighbors-IsKept src ns _ in
      (
        record {
          kept_rankings = k.kept_rankings;
          kept_affinity = k.kept_affinity;
          kept_mode = k.kept_mode;
        },
        e,
      )

  take_rankings-IsKept :
      (zero : F) (rs : List (CoreRanking F)) (h : Heatmap F)
      → IsKept h (take_rankings zero rs h)
        × ((take_rankings zero rs h).cpu_ids ≡ h.cpu_ids ++ map (λ r. r.cpu) rs)
  unfolding take_rankings
  take_rankings-IsKept zero [] h = (
    record { kept_rankings = refl; kept_affinity = refl; kept_mode = refl },
    sym (append-nil h.cpu_ids),
  )
  take_rankings-IsKept zero (r ∷ rs) h =
      let (k, e) = take_rankings-IsKept zero rs _ in
      let (k', e') = take_neighbors-IsKept r.cpu r.ranking _ in
      (
        record {
          kept_rankings = k.kept_rankings ∙ k'.kept_rankings;
          kept_affinity = k.kept_affinity ∙ k'.kept_affinity;
          kept_mode = k.kept_mode ∙ k'.kept_mode;
        },
        e ∙ ap (λ ids. ids ++ map (λ s. s.cpu) rs) e' ∙ append_assoc h.cpu_ids _ _,
      )

-- By the first numbers, and then by the second.
abbrev lex : ℤ → ℤ → ℤ → ℤ → Bool
lex s t a b = if not (s ==ℤ t) then ltb_ℤ s t else ltb_ℤ a b

-- Numbers of which neither is less are equal.
ltb_ℤ_antisymm : (s t : ℤ) → ltb_ℤ s t ≡ false → ltb_ℤ t s ≡ false → s ≡ t
ltb_ℤ_antisymm (pos a) (pos b) h k = ap pos (ground arith)
ltb_ℤ_antisymm (pos a) (negsuc b) h k = absurd (ground arith)
ltb_ℤ_antisymm (negsuc a) (pos b) h k = absurd (ground arith)
ltb_ℤ_antisymm (negsuc a) (negsuc b) h k = ap negsuc (ground arith)

lex_asymm : (s t a b : ℤ) → lex s t a b ≡ true → lex t s b a ≡ false
lex_asymm s t a b h = ground (arith, ==ℤ_iff s t, ==ℤ_iff t s, ltb_ℤ_asymm s t, ltb_ℤ_asymm a b)

lex_trans : (s t u a b c : ℤ) → lex t s b a ≡ false → lex u t c b ≡ false → lex u s c a ≡ false
lex_trans s t u a b c h k = ground (
  arith,
  ==ℤ_iff s t,
  ==ℤ_iff t s,
  ==ℤ_iff u t,
  ==ℤ_iff u s,
  ltb_ℤ_trans s t u,
  ltb_ℤ_trans a b c,
  ltb_ℤ_antisymm u t,
  ltb_ℤ_antisymm s t,
)

by_socket-StrictWeakOrder : (m : List (ℤ × ℤ)) → StrictWeakOrder (λ _. Unit {0}) (by_socket m)
by_socket-StrictWeakOrder m = record {
  asymm = λ a b _ _ h. lex_asymm (socket_of m a) (socket_of m b) a b h;
  le_trans = λ a b c _ _ _ h k. lex_trans (socket_of m a) (socket_of m b) (socket_of m c) a b c h k;
}

module _ (f : Float64) (o : ColorFloat f) (sorting : SliceSort ℤ) where
  -- What `New` keeps, and its rows and columns: the CPUs of the ranking, by socket and number.
  pub record IsArranged (rankings : List (CoreRanking f.F)) (affinity : List (ℤ × List ℤ))
      (mode : Mode) (h : Heatmap f.F) : Type 0 where
    pub same_rankings : h.rankings ≡ rankings
    pub same_affinity : h.affinity ≡ affinity
    pub same_mode : h.mode ≡ mode
    pub all_cpus : Perm h.cpu_ids (map (λ r. r.cpu) rankings)
    pub ordered : IsSorted (by_socket h.cpu_to_socket) h.cpu_ids

  pub new_heatmap-IsArranged :
      (rankings : List (CoreRanking f.F)) (summary : TopologyStats f.F)
      (affinity : List (ℤ × List ℤ)) (cpu_name : Bytes) (mode : Mode)
      → IsArranged rankings affinity mode
          (new_heatmap f o sorting rankings summary affinity cpu_name mode)
  unfolding new_heatmap prepare_data start_heatmap
  new_heatmap-IsArranged rankings summary affinity cpu_name mode =
      let start = start_heatmap rankings summary affinity cpu_name mode in
      let taken = take_rankings (f.of_int (pos 0)) rankings start in
      let (kept, ids) = take_rankings-IsKept (f.of_int (pos 0)) rankings start in
      record {
        same_rankings = kept.kept_rankings;
        same_affinity = kept.kept_affinity;
        same_mode = kept.kept_mode;
        all_cpus =
            subst (Perm _) ids (sorting.sort-perm (by_socket taken.cpu_to_socket) taken.cpu_ids);
        ordered =
            sorting.sort-IsSorted (λ _. Unit {0}) (by_socket taken.cpu_to_socket)
              (by_socket-StrictWeakOrder taken.cpu_to_socket) taken.cpu_ids
              (all_unit taken.cpu_ids);
      }
    where
      all_unit : (xs : List ℤ) → All (λ _. Unit {0}) xs
      all_unit [] = tt
      all_unit (x ∷ xs) = (tt, all_unit xs)
