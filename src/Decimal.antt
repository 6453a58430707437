-- ===== src/Decimal.antt =====
-- pkg/protocol/scores.go: decimal scores as exact fractions (`big.Rat`).
-- A fraction is kept as it is written, not reduced: only its value is read.
pub mod Bounds
use science_ladder.Base.{
  ℕ, zero, ◌+◌, ◌-◌, ◌^◌, Bool, true, false, ◌&&◌, ◌||◌, not, Option, none, some, [], ◌∷◌, ◌++◌,
  ltb, ◌==◌, if◌then◌else◌, Bytes, is_empty, length, Result, ok, message, reject_if, ◌>>=◌, ◌>>◌,
}
use science_ladder.Base.Int.{ℤ, pos, sub_ℕ, scale, ltb_ℤ, eqb_ℤ, leb_ℤ}
use science_ladder.Ticks.{all_digits, natural_match, value}

-- num / den, with a positive denominator.
pub record Rat : Type 0 where
  pub num : ℤ
  pub den : ℕ

-- `Cmp`: x < y, x ≤ y.
abbrev pub ltb_ℚ : Rat → Rat → Bool
ltb_ℚ x y = ltb_ℤ (scale x.num y.den) (scale y.num x.den)

abbrev pub leb_ℚ : Rat → Rat → Bool
leb_ℚ x y = leb_ℤ (scale x.num y.den) (scale y.num x.den)

abbrev pub eqb_ℚ : Rat → Rat → Bool
eqb_ℚ x y = eqb_ℤ (scale x.num y.den) (scale y.num x.den)

-- Everything before the first `.`, and what follows it.
unfoldable pub before_point : Bytes → Bytes
before_point [] = []
before_point (c ∷ cs) = if c == b'.' then [] else c ∷ before_point cs

unfoldable pub after_point : Bytes → Option Bytes
after_point [] = none
after_point (c ∷ cs) = if c == b'.' then some cs else after_point cs

abbrev pub fraction : Option Bytes → Bytes
fraction none = []
fraction (some cs) = cs

-- `(\.[0-9]+)?`
abbrev pub fraction_match : Option Bytes → Bool
fraction_match none = true
fraction_match (some cs) = not (is_empty cs) && all_digits cs

abbrev pub is_sign : ℕ → Bool
is_sign c = c == b'+' || c == b'-'

-- `strings.TrimLeft(value, "+-")`
unfoldable pub trim_signs : Bytes → Bytes
trim_signs [] = []
trim_signs (c ∷ cs) = if is_sign c then trim_signs cs else c ∷ cs

-- `strings.TrimLeft(digits, "0")`
unfoldable pub trim_zeros : Bytes → Bytes
trim_zeros [] = []
trim_zeros (c ∷ cs) = if c == b'0' then trim_zeros cs else c ∷ cs

-- `[+-]?`
abbrev pub drop_sign : Bytes → Bytes
drop_sign [] = []
drop_sign (c ∷ cs) = if is_sign c then cs else c ∷ cs

abbrev pub is_negative : Bytes → Bool
is_negative [] = false
is_negative (c ∷ cs) = c == b'-'

-- `decimalPattern`, `^[+-]?(0|[1-9][0-9]*)(\.[0-9]+)?$`
unfoldable pub decimal_match : Bytes → Bool
unfolding natural_match before_point after_point all_digits
decimal_match s =
    natural_match (before_point (drop_sign s)) && fraction_match (after_point (drop_sign s))

-- `new(big.Rat).SetString(value)` of a text that `decimalPattern` matches.
unfoldable pub rat_of_decimal : Bytes → Rat
unfolding before_point after_point value
rat_of_decimal s =
    let abs = drop_sign s in
    let tail = fraction (after_point abs) in
    let n = value 0 (before_point abs ++ tail) in
    record { num = if is_negative s then sub_ℕ 0 n else pos n; den = 10 ^ length tail }

unfoldable pub decimal : Bytes → Result Rat
unfolding decimal_match trim_signs trim_zeros before_point after_point rat_of_decimal
decimal s = do
  reject_if (not (decimal_match s)) (message "score must be a canonical finite decimal string")
  let abs = trim_signs s
  let tail = fraction (after_point abs)
  let significant = trim_zeros (before_point abs ++ tail)
  reject_if (ltb 100 (length significant)) (message "decimal exceeds 100 significant digits")
  reject_if (ltb 50 (length tail)) (message "decimal exceeds 50 fractional digits")
  let r = rat_of_decimal s
  reject_if (eqb_ℤ r.num (pos 0) && is_negative s) (message "invalid decimal or negative zero")
  ok r
