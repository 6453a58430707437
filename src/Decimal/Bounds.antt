-- ===== src/Decimal/Bounds.antt =====
-- What is known of an accepted decimal.
use native.Mathlib.Nat.{pow-suc}
use science_ladder.Base.{ℕ, zero, suc, ◌^◌, ◌<◌, ◌≡◌, arith, Bytes, length, ok}
use science_ladder.Decimal.{Rat, decimal, rat_of_decimal, fraction, after_point, drop_sign}

pow_positive : (n : ℕ) → 0 < 10 ^ n
pow_positive zero = omega arith
pow_positive (suc n) = rw pow-suc (omega (arith, pow_positive n))

rat_of_decimal-den : (s : Bytes) → 0 < (rat_of_decimal s).den
unfolding rat_of_decimal
rat_of_decimal-den s = pow_positive (length (fraction (after_point (drop_sign s))))

decimal_lem : (s : Bytes) {r : Rat} → decimal s ≡ ok r → rat_of_decimal s ≡ r
unfolding decimal
decimal_lem s h = ground arith

-- A decimal's denominator is positive.
pub decimal-den : (s : Bytes) {r : Rat} → decimal s ≡ ok r → 0 < r.den
decimal-den s h = rw (← decimal_lem s h) (rat_of_decimal-den s)
