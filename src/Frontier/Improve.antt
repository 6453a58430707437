-- ===== src/Frontier/Improve.antt =====
-- What frontier admission promises.
use science_ladder.Base.{
  ◌≡◌, ◌⊎◌, ◌↔◌, inl, inr, refl, true, false, arith, Bool-cases, Bytes, ok, is_ok,
}
use science_ladder.Base.Int.{ℤ, pos, ltb_ℤ, ◌≤ℤ◌, ◌<ℤ◌, ◌+ℤ◌, ◌-ℤ◌, -ℤ_parts, +ℤ_parts, neg_parts}
use science_ladder.Ticks.{parse_ticks}
use science_ladder.Metric.{Metric, is_maximize, is_minimize, not_both}
use science_ladder.Frontier.{frontier_improvement, admission_frontier}

module _ (score prior : Bytes) (m : Metric) where
  -- Texts that are no ticks never improve the frontier.
  pub frontier_improvement-reads :
      frontier_improvement score prior m ≡ true
      → (is_ok (parse_ticks score) ≡ true)
        × (is_ok (parse_ticks prior) ≡ true)
        × (is_ok (parse_ticks m.minimum_delta_ticks) ≡ true)
  unfolding frontier_improvement
  frontier_improvement-reads h = ground arith

  module _ (x y d : ℤ) (score_read : parse_ticks score ≡ ok x)
      (prior_read : parse_ticks prior ≡ ok y)
      (delta_read : parse_ticks m.minimum_delta_ticks ≡ ok d) where
    -- Where all texts read as ticks and more is better, a score improves the frontier exactly if
    -- the declared delta is positive and the score lies above the frontier by at least that much.
    pub frontier_improvement-maximize :
        is_maximize m.direction ≡ true
        → (frontier_improvement score prior m ≡ true) ↔ ((pos 0 <ℤ d) × (y +ℤ d ≤ℤ x))
    unfolding frontier_improvement
    frontier_improvement-maximize h =
        ground (arith, not_both m.direction, -ℤ_parts x y, +ℤ_parts y d)

    -- Where all texts read as ticks and less is better, a score improves the frontier exactly if
    -- the declared delta is positive and the score lies below the frontier by at least that much.
    pub frontier_improvement-minimize :
        is_minimize m.direction ≡ true
        → (frontier_improvement score prior m ≡ true) ↔ ((pos 0 <ℤ d) × (x +ℤ d ≤ℤ y))
    unfolding frontier_improvement
    frontier_improvement-minimize h =
        ground (arith, not_both m.direction, -ℤ_parts x y, neg_parts (x -ℤ y), +ℤ_parts x d)

-- The baseline stands in for a public frontier that cannot be read.
pub admission_frontier_unread :
    (m : Metric) (public : Bytes)
    → is_ok (parse_ticks public) ≡ false
    → admission_frontier m public ≡ m.baseline_ticks
unfolding admission_frontier
admission_frontier_unread m public h = ground arith

module _ (m : Metric) (public : Bytes) (a b : ℤ) (public_read : parse_ticks public ≡ ok a)
    (baseline_read : parse_ticks m.baseline_ticks ≡ ok b) where
  -- Where the public frontier and the baseline read as ticks and more is better, the frontier that
  -- admission compares with reads as the higher of the two.
  pub admission_frontier-maximize :
      is_maximize m.direction ≡ true
      → (z : ℤ) × (parse_ticks (admission_frontier m public) ≡ ok z)
        × (b ≤ℤ z)
        × (a ≤ℤ z)
        × ((z ≡ a) ⊎ (z ≡ b))
  unfolding admission_frontier
  admission_frontier-maximize h = elim (Bool-cases (ltb_ℤ (pos 0) (a -ℤ b))) [
    | inl better ↦ (
      a,
      ground (arith, not_both m.direction),
      ground (arith, -ℤ_parts a b),
      omega arith,
      inl refl,
    )
    | inr worse ↦ (
      b,
      ground (arith, not_both m.direction),
      omega arith,
      ground (arith, -ℤ_parts a b),
      inr refl,
    )
  ]

  -- Where the public frontier and the baseline read as ticks and less is better, the frontier that
  -- admission compares with reads as the lower of the two.
  pub admission_frontier-minimize :
      is_minimize m.direction ≡ true
      → (z : ℤ) × (parse_ticks (admission_frontier m public) ≡ ok z)
        × (z ≤ℤ b)
        × (z ≤ℤ a)
        × ((z ≡ a) ⊎ (z ≡ b))
  unfolding admission_frontier
  admission_frontier-minimize h = elim (Bool-cases (ltb_ℤ (a -ℤ b) (pos 0))) [
    | inl better ↦ (
      a,
      ground (arith, not_both m.direction),
      ground (arith, -ℤ_parts a b),
      omega arith,
      inl refl,
    )
    | inr worse ↦ (
      b,
      ground (arith, not_both m.direction),
      omega arith,
      ground (arith, -ℤ_parts a b),
      inr refl,
    )
  ]
