-- ===== src/Base/Decimal.antt =====
-- Go's `strconv` for base ten: `FormatUint`, `Itoa`, `ParseUint` and `Atoi`.
use Prim.Native.Nat.{ℕ, zero, suc, ◌+◌, ◌-◌, ◌*◌, ◌/◌, ◌%◌, ◌^◌, ◌≤◌, ◌<◌}
use mathlib.Core.Path.{◌≡◌, refl, sym, ap, ◌∙◌}
use mathlib.Core.Logic.{◌≢◌, inl, inr}
use mathlib.Core.Bool.{false, ◌||◌}
use mathlib.Core.List.{[], ◌∷◌, cons-ne-nil}
use mathlib.Core.Option.{Option, none, some}
use native.Mathlib.Omega.{arith}
use proxmox_cpu_affinity.Base.Tests.{ltb, ◌==◌, if◌then◌else◌, eq_of_some, Bool-cases}
use proxmox_cpu_affinity.Base.Int.{ℤ, pos, negsuc}
use proxmox_cpu_affinity.Base.Text.{Bytes, codes}

abbrev pub max_uint64 : ℕ
max_uint64 = 2 ^ 64 - 1

digits : ℕ → ℕ → Bytes → Bytes
digits zero n out = out
digits (suc f) n out =
    let out' = (b'0' + n % 10) ∷ out in
    let rest = digits f (n / 10) out' in if ltb n 10 then out' else rest

-- Each round divides by ten, so `n + 1` rounds are enough.
unfoldable pub format_uint : ℕ → Bytes
unfolding digits
format_uint n = digits (suc n) n []

unfoldable pub itoa : ℤ → Bytes
unfolding format_uint
itoa (pos n) = format_uint n
itoa (negsuc n) = b'-' ∷ format_uint (suc n)

-- The digits of a number that must not pass `limit`.
scan : ℕ → ℕ → Bytes → Option ℕ
scan limit n [] = some n
scan limit n (c ∷ s) =
    let d = c - b'0' in
    if ltb c b'0' || ltb b'9' c
    then none
    else if ltb limit (n * 10 + d)
    then none
    else scan limit (n * 10 + d) s

scan_some : ℕ → Bytes → Option ℕ
unfolding scan
scan_some limit [] = none
scan_some limit (c ∷ s) = scan limit 0 (c ∷ s)

unfoldable pub parse_uint : Bytes → Option ℕ
unfolding scan_some
parse_uint s = scan_some max_uint64 s

negate : ℕ → ℤ
negate zero = pos 0
negate (suc n) = negsuc n

atoi_signed : ℕ → Bytes → Option ℤ
unfolding scan_some negate
atoi_signed c s =
    if c == b'-'
    then elim (scan_some (2 ^ 63) s) [ none ↦ none | some n ↦ some (negate n) ]
    else if c == b'+'
    then elim (scan_some (2 ^ 63 - 1) s) [ none ↦ none | some n ↦ some (pos n) ]
    else elim (scan_some (2 ^ 63 - 1) (c ∷ s)) [ none ↦ none | some n ↦ some (pos n) ]

unfoldable pub atoi : Bytes → Option ℤ
unfolding atoi_signed
atoi [] = none
atoi (c ∷ s) = atoi_signed c s

scan-digits :
    (limit f n : ℕ) (out : Bytes)
    → n < f
    → n ≤ limit
    → scan limit 0 (digits f n out) ≡ scan limit n out
unfolding scan digits
scan-digits limit zero n out h fits = absurd (omega arith)
scan-digits limit (suc f) n out h fits =
    ground (arith, scan-digits limit f (n / 10) ((b'0' + n % 10) ∷ out))

digits-ne-nil : (f n : ℕ) (out : Bytes) → out ≢ [] → digits f n out ≢ []
unfolding digits
digits-ne-nil zero n out h = h
digits-ne-nil (suc f) n out h = ground (
  arith,
  digits-ne-nil f (n / 10) ((b'0' + n % 10) ∷ out) (cons-ne-nil _ _),
  cons-ne-nil (b'0' + n % 10) out,
)

format_uint-ne-nil : (n : ℕ) → format_uint n ≢ []
unfolding format_uint
format_uint-ne-nil n = ground (
  arith,
  digits-ne-nil n (n / 10) ((b'0' + n % 10) ∷ []) (cons-ne-nil _ _),
  cons-ne-nil (b'0' + n % 10) [],
)

scan_some-scan : (limit : ℕ) (s : Bytes) → s ≢ [] → scan_some limit s ≡ scan limit 0 s
unfolding scan_some
scan_some-scan limit [] h = absurd (h refl)
scan_some-scan limit (c ∷ s) h = refl

-- A number that fits is read back from its decimal print.
pub parse_uint-format_uint : (n : ℕ) → n ≤ max_uint64 → parse_uint (format_uint n) ≡ some n
unfolding parse_uint
parse_uint-format_uint n h =
    scan_some-scan max_uint64 (format_uint n) (format_uint-ne-nil n)
    ∙ unfold format_uint scan in scan-digits max_uint64 (suc n) n [] (omega arith) h

-- A text that reads as digits has no sign in front.
atoi-of_scan : (s : Bytes) (n : ℕ) → s ≢ [] → scan (2 ^ 63 - 1) 0 s ≡ some n → atoi s ≡ some (pos n)
unfolding atoi
atoi-of_scan [] n ne h = absurd (ne refl)
atoi-of_scan (c ∷ s) n ne h = elim (Bool-cases (ltb c b'0')) [
  | inl q ↦ cc (rw (q, scan) at h)
  | inr q ↦
      let minus : (c == b'-') ≡ false = ground arith in
      let plus : (c == b'+') ≡ false = ground arith in
      rw (minus, plus, scan_some-scan (2 ^ 63 - 1) (c ∷ s) ne, h, atoi, atoi_signed)
]

-- An `int` that is not negative is read back from its decimal print.
pub atoi-itoa : (n : ℕ) → n < 2 ^ 63 → atoi (itoa (pos n)) ≡ some (pos n)
unfolding itoa
atoi-itoa n h =
    atoi-of_scan (format_uint n) n (format_uint-ne-nil n)
      (unfold format_uint scan in scan-digits (2 ^ 63 - 1) (suc n) n [] (omega arith) (omega arith))

-- Two numbers with one decimal print are equal.
pub format_uint-injective : (m n : ℕ) → format_uint m ≡ format_uint n → m ≡ n
format_uint-injective m n e =
    eq_of_some (sym (read m (omega arith)) ∙ ap reader e ∙ read n (omega arith))
  where
    reader : Bytes → Option ℕ
    reader = scan (m + n) 0

    read : (k : ℕ) → k ≤ m + n → scan (m + n) 0 (format_uint k) ≡ some k
    read k h = unfold format_uint scan in scan-digits (m + n) (suc k) k [] (omega arith) h

format_test : format_uint 1205 ≡ codes "1205"
unfolding format_uint
format_test = refl

parse_test : parse_uint (codes "18446744073709551616") ≡ none
unfolding parse_uint
parse_test = refl

atoi_test : atoi (codes "-12") ≡ some (negsuc 11)
unfolding atoi
atoi_test = refl
