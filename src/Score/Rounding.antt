-- ===== src/Score/Rounding.antt =====
-- Rounding to ticks is against the solver.
use native.Mathlib.Nat.{div-add-mod, mod-lt}
use science_ladder.Base.{
  ℕ, suc, ◌+◌, ◌*◌, ◌/◌, ◌%◌, ◌≤◌, ◌<◌, ◌≡◌, inl, inr, ap, true, arith, ◌==◌, if◌then◌else◌,
  Bool-cases, ==_iff, Bytes,
}
use science_ladder.Base.Int.{
  ℤ, pos, negsuc, sub_ℕ, scale, pos_part, neg_part, ◌≤ℤ◌, ◌<ℤ◌, ◌+ℤ◌, ◌-ℤ◌, scale_parts, +ℤ_parts,
  -ℤ_parts,
}
use science_ladder.Metric.{is_maximize, is_minimize, not_both}
use science_ladder.Score.{round_ticks}

-- t is the largest tick at most the ratio n / d.
abbrev pub IsFloor : ℤ → ℤ → ℕ → Type 0
IsFloor t n d = (scale t d ≤ℤ n) × (n <ℤ scale (t +ℤ pos 1) d)

abbrev pub IsCeiling : ℤ → ℤ → ℕ → Type 0
IsCeiling t n d = (n ≤ℤ scale t d) × (scale (t -ℤ pos 1) d <ℤ n)

-- The integer a, as x - y, times d.
scale_difference :
    (a : ℤ) (x y d : ℕ)
    → pos_part a + y ≡ neg_part a + x
    → pos_part (scale a d) + y * d ≡ neg_part (scale a d) + x * d
scale_difference a x y d h = omega (arith, scale_parts a d, ap (λ (t : ℕ). t * d) h)

IsFloor-of :
    (t n : ℤ) (x y d : ℕ)
    → pos_part t + y ≡ neg_part t + x
    → x * d + neg_part n ≤ pos_part n + y * d
    → pos_part n + y * d < (x + 1) * d + neg_part n
    → IsFloor t n d
IsFloor-of t n x y d h low high = (
  omega (arith, scale_difference t x y d h),
  omega (arith, scale_difference (t +ℤ pos 1) (x + 1) y d (omega (arith, +ℤ_parts t (pos 1)))),
)

IsCeiling-of :
    (t n : ℤ) (x y d : ℕ)
    → pos_part t + y ≡ neg_part t + x
    → pos_part n + y * d ≤ x * d + neg_part n
    → x * d + neg_part n < pos_part n + (y + 1) * d
    → IsCeiling t n d
IsCeiling-of t n x y d h high low = (
  omega (arith, scale_difference t x y d h),
  omega (arith, scale_difference (t -ℤ pos 1) x (y + 1) d (omega (arith, -ℤ_parts t (pos 1)))),
)

ceil_div : ℕ → ℕ → ℕ
ceil_div n d = if n % d == 0 then n / d else n / d + 1

div_bounds : (n d : ℕ) → 0 < d → (n / d * d ≤ n) × (n < (n / d + 1) * d)
div_bounds n d p = (omega (arith, div-add-mod n d), omega (arith, div-add-mod n d, mod-lt n p))

ceil_div_bounds : (n d : ℕ) → 0 < d → (n ≤ ceil_div n d * d) × (ceil_div n d * d < n + d)
unfolding ceil_div
ceil_div_bounds n d p = elim (Bool-cases (n % d == 0)) [
  | inl e ↦ let exact : n % d ≡ 0 = (==_iff _ 0).0 e in rw e (omega (arith, div-add-mod n d))
  | inr e ↦
      let inexact : 0 < n % d = ground arith in rw e (omega (arith, div-add-mod n d, mod-lt n p))
]

module _ (direction : Bytes) (d : ℕ) where
  max_pos :
      (n : ℕ)
      → is_maximize direction ≡ true
      → round_ticks direction (record { num = pos n; den = d }) ≡ pos (n / d)
  unfolding round_ticks
  max_pos n h = ground (arith, not_both direction h)

  max_negsuc :
      (n : ℕ)
      → is_maximize direction ≡ true
      → round_ticks direction (record { num = negsuc n; den = d }) ≡ sub_ℕ 0 (ceil_div (suc n) d)
  unfolding round_ticks ceil_div
  max_negsuc n h = ground (arith, not_both direction h)

  min_pos :
      (n : ℕ)
      → is_minimize direction ≡ true
      → round_ticks direction (record { num = pos n; den = d }) ≡ pos (ceil_div n d)
  unfolding round_ticks ceil_div
  min_pos n h = ground (arith, not_both direction)

  min_negsuc :
      (n : ℕ)
      → is_minimize direction ≡ true
      → round_ticks direction (record { num = negsuc n; den = d }) ≡ sub_ℕ 0 (suc n / d)
  unfolding round_ticks
  min_negsuc n h = ground (arith, not_both direction)

-- Where more is better, the ticks of a ratio are its floor.
pub round_ticks-IsFloor :
    (direction : Bytes) (n : ℤ) (d : ℕ)
    → 0 < d
    → is_maximize direction ≡ true
    → IsFloor (round_ticks direction (record { num = n; den = d })) n d
round_ticks-IsFloor direction (pos n) d p h =
    let (low, high) = div_bounds n d p in
    rw (max_pos direction d n h)
      (IsFloor-of (pos (n / d)) (pos n) (n / d) 0 d (omega arith) (omega arith) (omega arith))
round_ticks-IsFloor direction (negsuc n) d p h =
    let k = ceil_div (suc n) d in
    let (low, high) = ceil_div_bounds (suc n) d p in
    rw (max_negsuc direction d n h)
      (IsFloor-of (sub_ℕ 0 k) (negsuc n) 0 k d (ground arith) (omega arith) (omega arith))

-- Where less is better, they are its ceiling.
pub round_ticks-IsCeiling :
    (direction : Bytes) (n : ℤ) (d : ℕ)
    → 0 < d
    → is_minimize direction ≡ true
    → IsCeiling (round_ticks direction (record { num = n; den = d })) n d
round_ticks-IsCeiling direction (pos n) d p h =
    let k = ceil_div n d in
    let (high, low) = ceil_div_bounds n d p in
    rw (min_pos direction d n h)
      (IsCeiling-of (pos k) (pos n) k 0 d (omega arith) (omega arith) (omega arith))
round_ticks-IsCeiling direction (negsuc n) d p h =
    let k = suc n / d in
    let (low, high) = div_bounds (suc n) d p in
    rw (min_negsuc direction d n h)
      (IsCeiling-of (sub_ℕ 0 k) (negsuc n) 0 k d (ground arith) (omega arith) (omega arith))
