-- ===== src/Score/Confirm.antt =====
-- What confirmation of two runs returns, and when a score qualifies.
use science_ladder.Base.{◌≡◌, ◌⊎◌, sym, ap, ◌∙◌, true, arith, if◌then◌else◌, Bytes, ok}
use science_ladder.Base.Int.{ℤ, pos, abs_ℕ, ltb_ℤ, ◌≤ℤ◌, ◌-ℤ◌}
use science_ladder.Ticks.{parse_ticks, to_string}
use science_ladder.Ticks.RoundTrip.{to_string-parse_ticks}
use science_ladder.Metric.{Metric, is_maximize, is_minimize, not_both}
use science_ladder.Score.{confirm_scores, qualifies}

module _ (a b s : Bytes) (m : Metric) (x y t : ℤ) (a_read : parse_ticks a ≡ ok x)
    (b_read : parse_ticks b ≡ ok y) (tolerance_read : parse_ticks m.tolerance_ticks ≡ ok t)
    (done : confirm_scores a b m ≡ ok s) where
  -- Where the two runs and the tolerance read as ticks, more is better and confirmation returns a
  -- score: that score is one of the two, the smaller one, and the runs lie within the tolerance.
  pub confirm_scores-maximize :
      is_maximize m.direction ≡ true
      → (z : ℤ) × (parse_ticks s ≡ ok z)
        × (z ≤ℤ x)
        × (z ≤ℤ y)
        × ((s ≡ a) ⊎ (s ≡ b))
        × (pos (abs_ℕ (x -ℤ y)) ≤ℤ t)
  unfolding confirm_scores
  confirm_scores-maximize h = (
    if ltb_ℤ x y then x else y,
    ground arith,
    ground arith,
    ground arith,
    ground arith,
    ground arith,
  )

  -- Where the two runs and the tolerance read as ticks, less is better and confirmation returns a
  -- score: that score is one of the two, the larger one, and the runs lie within the tolerance.
  pub confirm_scores-minimize :
      is_minimize m.direction ≡ true
      → (z : ℤ) × (parse_ticks s ≡ ok z)
        × (x ≤ℤ z)
        × (y ≤ℤ z)
        × ((s ≡ a) ⊎ (s ≡ b))
        × (pos (abs_ℕ (x -ℤ y)) ≤ℤ t)
  unfolding confirm_scores
  confirm_scores-minimize h = (
    if ltb_ℤ y x then x else y,
    ground (arith, not_both m.direction),
    ground (arith, not_both m.direction),
    ground (arith, not_both m.direction),
    ground (arith, not_both m.direction),
    ground (arith, not_both m.direction),
  )

-- Where both runs read as ticks, the order of the two does not matter: the same score or the same
-- error comes back.
pub confirm_scores_comm :
    (a b : Bytes) (m : Metric) {x y : ℤ}
    → parse_ticks a ≡ ok x
    → parse_ticks b ≡ ok y
    → confirm_scores a b m ≡ confirm_scores b a m
unfolding confirm_scores
confirm_scores_comm a b m {x} {y} h k =
    let same =
      λ (e : x ≡ y). sym (to_string-parse_ticks a h) ∙ ap to_string e ∙ to_string-parse_ticks b k in
    ground (arith, same)

module _ (better worse threshold direction : Bytes) {x y : ℤ}
    (better_read : parse_ticks better ≡ ok x) (worse_read : parse_ticks worse ≡ ok y) where
  -- Where both scores read as ticks and more is better, a score passes every threshold that a
  -- smaller one passes.
  pub qualifies_mono :
      is_maximize direction ≡ true
      → y ≤ℤ x
      → qualifies worse threshold direction ≡ ok true
      → qualifies better threshold direction ≡ ok true
  unfolding qualifies
  qualifies_mono h le q = ground arith
