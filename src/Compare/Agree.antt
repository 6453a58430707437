-- ===== src/Compare/Agree.antt =====
-- The platform's comparisons agree with the protocol's.
use science_ladder.Base.{◌≡◌, ◌↔◌, sym, ap, ◌∙◌, true, ◌||◌, some, arith, Bytes, ok}
use science_ladder.Base.Int.{ℤ, pos, ◌≤ℤ◌, ◌<ℤ◌}
use science_ladder.Ticks.{parse_ticks, set_string}
use science_ladder.Ticks.RoundTrip.{parse_ticks-set_string, to_string-parse_ticks}
use science_ladder.Metric.{Metric, is_maximize, is_minimize, not_both}
use science_ladder.Score.{confirm_scores}
use science_ladder.Frontier.{frontier_improvement}
use science_ladder.Compare.{meaningful, confirmed_score}

one_spelling : (a b : Bytes) {x : ℤ} → parse_ticks a ≡ ok x → parse_ticks b ≡ ok x → a ≡ b
one_spelling a b h k = sym (to_string-parse_ticks a h) ∙ to_string-parse_ticks b k

module _ (a b : Bytes) (m : Metric) (x y t : ℤ) (a_read : parse_ticks a ≡ ok x)
    (b_read : parse_ticks b ≡ ok y) (tolerance_read : parse_ticks m.tolerance_ticks ≡ ok t) where
  same_text : x ≡ y → a ≡ b
  same_text e = one_spelling a b a_read (b_read ∙ ap ok (sym e))

  set_string_reads :
      (set_string a ≡ some x) × (set_string b ≡ some y) × (set_string m.tolerance_ticks ≡ some t)
  set_string_reads = (
    parse_ticks-set_string a a_read,
    parse_ticks-set_string b b_read,
    parse_ticks-set_string m.tolerance_ticks tolerance_read,
  )

  -- Where both runs and the tolerance read as ticks, the tolerance is not negative and the
  -- direction is known, the platform's confirmation rule and the protocol's return the same scores.
  pub confirmed_score-confirm_scores :
      (s : Bytes)
      → pos 0 ≤ℤ t
      → (is_maximize m.direction || is_minimize m.direction) ≡ true
      → (confirmed_score a b m ≡ ok s) ↔ (confirm_scores a b m ≡ ok s)
  unfolding confirmed_score confirm_scores
  confirmed_score-confirm_scores s h k = (
    λ e. ground (arith, set_string_reads, same_text, not_both m.direction),
    λ e. ground (arith, set_string_reads, same_text, not_both m.direction),
  )

module _ (score prior : Bytes) (m : Metric) (x y d : ℤ) (score_read : parse_ticks score ≡ ok x)
    (prior_read : parse_ticks prior ≡ ok y)
    (delta_read : parse_ticks m.minimum_delta_ticks ≡ ok d) where
  -- Where score, prior score and least delta read as ticks, the delta is positive and the direction
  -- is known, the protocol's frontier test and the platform's test of a meaningful gain agree.
  pub frontier_improvement-meaningful :
      pos 0 <ℤ d
      → (is_maximize m.direction || is_minimize m.direction) ≡ true
      → frontier_improvement score prior m ≡ meaningful score prior m
  unfolding frontier_improvement meaningful
  frontier_improvement-meaningful h k = ground (
    arith,
    parse_ticks-set_string score score_read,
    parse_ticks-set_string prior prior_read,
    parse_ticks-set_string m.minimum_delta_ticks delta_read,
    not_both m.direction,
  )
