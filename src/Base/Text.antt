-- ===== src/Base/Text.antt =====
-- Text as a list of bytes, with what the code uses of Go's `strings` package. White space is the
-- ASCII white space, which is all that the commands and files read here print.
use Prim.Native.Nat.{ℕ}
use Prim.Native.Char.{code}
use Prim.Native.String.{String}
use mathlib.Core.Path.{◌≡◌, refl}
use mathlib.Core.Logic.{◌↔◌}
use mathlib.Core.Bool.{Bool, true, false, ◌&&◌, ◌||◌}
use mathlib.Core.List.{List, [], ◌∷◌, ◌++◌, reverse}
use mathlib.Core.Option.{Option, none, some}
use native.Mathlib.Omega.{arith}
use proxmox_cpu_affinity.Base.Tests.{leb, ◌==◌, if◌then◌else◌}

abbrev pub Bytes : Type 0
Bytes = List ℕ

-- The code points of a literal: its bytes, since the literals are ASCII.
abbrev pub codes : String → Bytes
codes String.[] = []
codes (String.◌∷◌ c s) = code c ∷ codes s

infix 50 ◌==ᵇ◌
unfoldable pub ◌==ᵇ◌ : Bytes → Bytes → Bool
[] ==ᵇ [] = true
[] ==ᵇ (d ∷ t) = false
(c ∷ s) ==ᵇ [] = false
(c ∷ s) ==ᵇ (d ∷ t) = c == d && s ==ᵇ t

pub ==ᵇ_iff : (s t : Bytes) → ((s ==ᵇ t) ≡ true) ↔ (s ≡ t)
unfolding ◌==ᵇ◌
==ᵇ_iff [] [] = ground arith
==ᵇ_iff [] (d ∷ t) = ground arith
==ᵇ_iff (c ∷ s) [] = ground arith
==ᵇ_iff (c ∷ s) (d ∷ t) = ground (arith, ==ᵇ_iff s t)

-- `strings.HasPrefix`.
pub starts_with : Bytes → Bytes → Bool
starts_with [] t = true
starts_with (c ∷ s) [] = false
starts_with (c ∷ s) (d ∷ t) = c == d && starts_with s t

-- `strings.Contains(t, s)`.
unfoldable pub contains : Bytes → Bytes → Bool
unfolding starts_with
contains [] s = starts_with s []
contains (c ∷ t) s = starts_with s (c ∷ t) || contains t s

&&_mono : (a : Bool) {b c : Bool} → (b ≡ true → c ≡ true) → (a && b) ≡ true → (a && c) ≡ true
&&_mono true f h = f h
&&_mono false f h = h

||_mono :
    (a : Bool) {b c d : Bool}
    → (a ≡ true → c ≡ true)
    → (b ≡ true → d ≡ true)
    → (a || b) ≡ true
    → (c || d) ≡ true
||_mono true f g h = rw (f refl)
||_mono false {c = true} f g h = refl
||_mono false {c = false} f g h = g h

starts_with-append : (s t u : Bytes) → starts_with (s ++ t) u ≡ true → starts_with s u ≡ true
unfolding starts_with
starts_with-append [] t u h = refl
starts_with-append (c ∷ s) t [] h = cc
starts_with-append (c ∷ s) t (d ∷ u) h = &&_mono (c == d) (starts_with-append s t u) h

-- A text that contains a longer one contains its beginning.
pub contains-append : (text s t : Bytes) → contains text (s ++ t) ≡ true → contains text s ≡ true
unfolding contains
contains-append [] s t h = starts_with-append s t [] h
contains-append (c ∷ text) s t h =
    ||_mono (starts_with (s ++ t) (c ∷ text)) (starts_with-append s t (c ∷ text))
      (contains-append text s t) h

abbrev pub is_space : ℕ → Bool
is_space c = c == 32 || leb 9 c && leb c 13

trim_left : Bytes → Bytes
trim_left [] = []
trim_left (c ∷ s) = if is_space c then trim_left s else c ∷ s

-- `strings.TrimSpace`.
unfoldable pub trim_space : Bytes → Bytes
unfolding trim_left
trim_space s = reverse (trim_left (reverse (trim_left s)))

-- What a loop over a text has gathered: the current word on top of the words before it.
push_word : Bytes → List Bytes → List Bytes
push_word [] words = words
push_word (c ∷ w) words = (c ∷ w) ∷ words

fields_from : Bytes → Bytes → List Bytes
unfolding push_word
fields_from w [] = push_word w []
fields_from w (c ∷ s) =
    let cut = push_word w (fields_from [] s) in
    let grown = fields_from (w ++ c ∷ []) s in if is_space c then cut else grown

-- `strings.Fields`: the runs of bytes between white space.
unfoldable pub fields : Bytes → List Bytes
unfolding fields_from
fields s = fields_from [] s

split_from : ℕ → Bytes → Bytes → List Bytes
split_from sep w [] = w ∷ []
split_from sep w (c ∷ s) =
    let cut = w ∷ split_from sep [] s in
    let grown = split_from sep (w ++ c ∷ []) s in if c == sep then cut else grown

-- `strings.Split` at a separator of one byte.
unfoldable pub split : ℕ → Bytes → List Bytes
unfolding split_from
split sep s = split_from sep [] s

-- `strings.Join`.
unfoldable pub join : Bytes → List Bytes → Bytes
join sep [] = []
join sep (w ∷ []) = w
join sep (w ∷ v ∷ ws) = w ++ (sep ++ join sep (v ∷ ws))

newline : ℕ
newline = 10

fields_test : fields (codes " a bc  d ") ≡ codes "a" ∷ codes "bc" ∷ codes "d" ∷ []
unfolding fields
fields_test = refl

contains_test : contains (codes "scsi0: x, hookscript: local") (codes "hookscript: ") ≡ true
unfolding contains
contains_test = refl

join_test : join (codes ",") (codes "1" ∷ codes "2" ∷ []) ≡ codes "1,2"
unfolding join
join_test = refl

trim_test : trim_space (codes " 12 ") ≡ codes "12"
unfolding trim_space
trim_test = refl

-- What is left of a text behind a prefix, if it has that prefix.
strip_prefix : Bytes → Bytes → Option Bytes
strip_prefix [] t = some t
strip_prefix (c ∷ s) [] = none
strip_prefix (c ∷ s) (d ∷ t) = if c == d then strip_prefix s t else none

-- `strings.TrimPrefix(t, s)`.
unfoldable pub trim_prefix : Bytes → Bytes → Bytes
unfolding strip_prefix
trim_prefix s t = elim (strip_prefix s t) [ none ↦ t | some rest ↦ rest ]

-- `strings.TrimSuffix(t, s)`.
unfoldable pub trim_suffix : Bytes → Bytes → Bytes
unfolding trim_prefix
trim_suffix s t = reverse (trim_prefix (reverse s) (reverse t))

trim_slashes : Bytes → Bytes
trim_slashes [] = []
trim_slashes (c ∷ s) = if c == b'/' then trim_slashes s else c ∷ s

-- What stands before the first slash.
until_slash : Bytes → Bytes
until_slash [] = []
until_slash (c ∷ s) = if c == b'/' then [] else c ∷ until_slash s

-- The last element of a path that is not empty, read from its end.
base_reversed : Bytes → Bytes
unfolding until_slash
base_reversed [] = codes "/"
base_reversed (c ∷ s) = reverse (until_slash (c ∷ s))

-- `filepath.Base`.
unfoldable pub base_name : Bytes → Bytes
unfolding trim_slashes base_reversed
base_name [] = codes "."
base_name (c ∷ s) = base_reversed (trim_slashes (reverse (c ∷ s)))

base_name_test : base_name (codes "/sys/devices/cpu10/") ≡ codes "cpu10"
unfolding base_name
base_name_test = refl

trim_suffix_test : trim_suffix (codes ".pid") (codes "100.pid") ≡ codes "100"
unfolding trim_suffix
trim_suffix_test = refl
