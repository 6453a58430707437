-- ===== src/Timing/Ratio.antt =====
-- `big.Rat` as pkg/protocol/measurement.go uses it: sums, quotients, order and print.
use science_ladder.Base.{ℕ, suc, ◌*◌, ◌/◌, List, [], ◌∷◌, ◌++◌, if◌then◌else◌, Bytes}
use science_ladder.Base.Int.{ℤ, pos, negsuc, sub_ℕ, abs_ℕ, scale, ◌+ℤ◌, ◌-ℤ◌}
use science_ladder.Ticks.{to_string}
use science_ladder.Decimal.{Rat, leb_ℚ}
use science_ladder.Evaluation.{gcd}

unfoldable pub add : Rat → Rat → Rat
unfolding ◌+ℤ◌ scale
add a b = record { num = scale a.num b.den +ℤ scale b.num a.den; den = a.den * b.den }

unfoldable pub sub : Rat → Rat → Rat
unfolding ◌-ℤ◌ scale
sub a b = record { num = scale a.num b.den -ℤ scale b.num a.den; den = a.den * b.den }

unfoldable pub half : Rat → Rat
half a = record { num = a.num; den = a.den * 2 }

abbrev pub divide : ℤ → ℕ → ℤ
divide (pos n) d = pos (n / d)
divide (negsuc n) d = sub_ℕ 0 (suc n / d)

-- A `big.Rat` is kept in lowest terms.
unfoldable pub rational_string : Rat → Bytes
unfolding gcd to_string
rational_string r =
    let d = gcd (suc r.den) (abs_ℕ r.num) r.den in
    to_string (divide r.num d) ++ b'/' ∷ to_string (pos (r.den / d))

unfoldable pub insert_ratio : Rat → List Rat → List Rat
unfolding scale
insert_ratio a [] = a ∷ []
insert_ratio a (b ∷ bs) = let rest = insert_ratio a bs in if leb_ℚ a b then a ∷ b ∷ bs else b ∷ rest

-- `sort.Slice(ratios, …)`: ratios that compare equal are equal numbers, so their order is free.
unfoldable pub sort_ratios : List Rat → List Rat
unfolding insert_ratio
sort_ratios [] = []
sort_ratios (a ∷ rest) = insert_ratio a (sort_ratios rest)
