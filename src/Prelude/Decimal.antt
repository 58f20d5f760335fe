-- ===== src/Prelude/Decimal.antt =====
-- Numbers in decimal digits: what the program uses of %d and of strconv.
use Prim.Native.Nat.{ℕ, zero, suc, ◌+◌, ◌-◌, ◌*◌, ◌/◌, ◌%◌, ◌≤◌, ◌<◌}
use mathlib.Core.Path.{◌≡◌, refl, sym, ap, ◌∙◌}
use mathlib.Core.Logic.{◌≢◌, ◌⊎◌, inl, inr}
use mathlib.Core.Bool.{Bool, true, ◌&&◌}
use mathlib.Core.List.{[], ◌∷◌, ◌++◌}
use mathlib.Core.Option.{Option, none, some}
use native.Mathlib.Omega.{arith}
use bricks.Prelude.Tests.{ltb, leb, ◌==◌, if◌then◌else◌, Bool-cases}
use bricks.Prelude.Lists.{All}
use bricks.Prelude.Text.{Text, Lacks}
use bricks.Prelude.Int.{ℤ, pos, negsuc, ◌-ℤ◌}
use bricks.Prelude.Time.{IsDuration, two_63}

-- The fuel is more than the number, which is more than its digits.
unfoldable pub digits : ℕ → ℕ → Text
digits zero n = []
digits (suc fuel) n =
    let rest = digits fuel (n / 10) in
    if ltb n 10 then (48 + n) ∷ [] else rest ++ (48 + n % 10) ∷ []

unfoldable pub decimal : ℕ → Text
unfolding digits
decimal n = digits (suc n) n

abbrev pub is_digit : ℕ → Bool
is_digit c = leb 48 c && leb c 57

-- The digits behind those that make up `acc`.
unfoldable pub value_from : ℕ → Text → Option ℕ
value_from acc [] = some acc
value_from acc (c ∷ s) =
    let rest = value_from (acc * 10 + (c - 48)) s in if is_digit c then rest else none

value_from-append :
    (acc m c : ℕ) (s : Text)
    → value_from acc s ≡ some m
    → 48 ≤ c
    → c ≤ 57
    → value_from acc (s ++ c ∷ []) ≡ some (m * 10 + (c - 48))
unfolding value_from
value_from-append acc m c [] e h k = ground arith
value_from-append acc m c (d ∷ s) e h k = elim (Bool-cases (is_digit d)) [
  | inl p ↦ rw p (value_from-append (acc * 10 + (d - 48)) m c s (rw p at e) h k)
  | inr p ↦ absurd (ground arith)
]

value_from-digits : (fuel n : ℕ) → n < fuel → value_from 0 (digits fuel n) ≡ some n
unfolding value_from digits
value_from-digits zero n h = absurd (omega arith)
value_from-digits (suc fuel) n h = elim (Bool-cases (ltb n 10)) [
  | inl p ↦ rw p (ground arith)
  | inr p ↦
      let smaller : n / 10 < fuel = ground arith in
      let last : n ≡ n / 10 * 10 + (48 + n % 10 - 48) = omega arith in
      let whole : value_from 0 (digits fuel (n / 10) ++ (48 + n % 10) ∷ [])
          ≡ some (n / 10 * 10 + (48 + n % 10 - 48)) =
        value_from-append 0 (n / 10) (48 + n % 10) (digits fuel (n / 10))
          (value_from-digits fuel (n / 10) smaller) (omega arith) (omega arith) in
      rw p (whole ∙ ap some (sym last))
]

pub value-decimal : (n : ℕ) → value_from 0 (decimal n) ≡ some n
unfolding decimal
value-decimal n = value_from-digits (suc n) n (omega arith)

with_last : (P : ℕ → Type 0) (s : Text) (c : ℕ) → All P s → P c → All P (s ++ c ∷ [])
with_last P [] c h k = (k, tt)
with_last P (d ∷ s) c (h, hs) k = (h, with_last P s c hs k)

IsDigit : ℕ → Type 0
IsDigit c = (48 ≤ c) × (c ≤ 57)

digits-IsDigit : (fuel n : ℕ) → All IsDigit (digits fuel n)
unfolding digits IsDigit
digits-IsDigit zero n = tt
digits-IsDigit (suc fuel) n = elim (Bool-cases (ltb n 10)) [
  | inl p ↦ rw p ((omega arith, ground arith), tt)
  | inr p ↦ rw p (
      with_last IsDigit (digits fuel (n / 10)) (48 + n % 10) (digits-IsDigit fuel (n / 10))
        (omega arith, omega arith))
]

decimal-IsDigit : (n : ℕ) → All IsDigit (decimal n)
unfolding decimal
decimal-IsDigit n = digits-IsDigit (suc n) n

no_such_digit : (b : ℕ) (s : Text) → b < 48 ⊎ 57 < b → All IsDigit s → Lacks b s
unfolding IsDigit
no_such_digit b [] h k = tt
no_such_digit b (c ∷ s) h ((k, l), ks) = ((λ e. omega arith), no_such_digit b s h ks)

-- A number is written with no byte but digits.
pub decimal-Lacks : (b n : ℕ) → b < 48 ⊎ 57 < b → Lacks b (decimal n)
unfolding decimal
decimal-Lacks b n h = no_such_digit b (digits (suc n) n) h (digits-IsDigit (suc n) n)

-- %d
unfoldable pub format_int : ℤ → Text
format_int (pos n) = decimal n
format_int (negsuc n) = 45 ∷ decimal (suc n)

unfoldable pub parse_digits : Text → Option ℕ
parse_digits [] = none
parse_digits (c ∷ s) = value_from 0 (c ∷ s)

-- The number with a minus sign, and without, if it is an int64.
unfoldable pub negative : Option ℕ → Option ℤ
negative none = none
negative (some n) = if leb n two_63 then some (pos 0 -ℤ pos n) else none

unfoldable pub positive : Option ℕ → Option ℤ
positive none = none
positive (some n) = if ltb n two_63 then some (pos n) else none

-- strconv.ParseInt(s, 10, 64) and, on 64 bits, strconv.Atoi(s); an error is `none`.
unfoldable pub parse_int : Text → Option ℤ
unfolding parse_digits negative positive
parse_int [] = none
parse_int (c ∷ s) =
    if c == 45
    then negative (parse_digits s)
    else if c == 43
    then positive (parse_digits s)
    else positive (parse_digits (c ∷ s))

snoc_nonempty : (s : Text) (c : ℕ) → s ++ c ∷ [] ≢ []
snoc_nonempty [] c e = cc
snoc_nonempty (d ∷ s) c e = cc

decimal_nonempty : (n : ℕ) → decimal n ≢ []
unfolding decimal digits
decimal_nonempty n e = elim (Bool-cases (ltb n 10)) [
  | inl p ↦ (let f : (48 + n) ∷ [] ≡ [] = rw p at e in cc)
  | inr p ↦ snoc_nonempty (digits n (n / 10)) (48 + n % 10) (rw p at e)
]

parse_digits-decimal : (n : ℕ) (s : Text) → decimal n ≡ s → parse_digits s ≡ some n
unfolding parse_digits
parse_digits-decimal n [] e = absurd (decimal_nonempty n e)
parse_digits-decimal n (c ∷ s) e = rw (← e) (value-decimal n)

parse_int-digits :
    (n : ℕ) (s : Text) → decimal n ≡ s → All IsDigit s → n < two_63 → parse_int s ≡ some (pos n)
unfolding parse_int positive IsDigit
parse_int-digits n [] e d h = absurd (decimal_nonempty n e)
parse_int-digits n (c ∷ s) e ((d, _), _) h =
    let p : parse_digits (c ∷ s) ≡ some n = parse_digits-decimal n (c ∷ s) e in ground arith

-- An int64 that is written in decimal is read back.
pub parse_int-format_int : (z : ℤ) → IsDuration z → parse_int (format_int z) ≡ some z
unfolding format_int
parse_int-format_int (pos n) h =
    parse_int-digits n (decimal n) refl (decimal-IsDigit n) (omega arith)
parse_int-format_int (negsuc n) h =
    unfold parse_int negative in
    let p : parse_digits (decimal (suc n)) ≡ some (suc n) =
      parse_digits-decimal (suc n) (decimal (suc n)) refl in
    let q : pos 0 -ℤ pos (suc n) ≡ negsuc n = unfold ◌-ℤ◌ in ground arith in
    let t : leb (suc n) two_63 ≡ true = ground arith in rw (p, t, q) refl

-- A number is written with digits and a minus sign.
pub format_int-Lacks : (b : ℕ) (z : ℤ) → b ≢ 45 → b < 48 ⊎ 57 < b → Lacks b (format_int z)
unfolding format_int
format_int-Lacks b (pos n) h k = decimal-Lacks b n k
format_int-Lacks b (negsuc n) h k = ((λ e. h (sym e)), decimal-Lacks b (suc n) k)
