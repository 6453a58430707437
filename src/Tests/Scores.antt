-- ===== src/Tests/Scores.antt =====
-- Ticks, scores and frontiers at concrete inputs.
use science_ladder.Base.{
  ◌≡◌, ◌⊎◌, ◌↔◌, refl, true, [], arith, Bytes, text, text_eq, ok, err, message,
}
use science_ladder.Base.Int.{ℤ, pos, negsuc, scale, abs_ℕ, ◌≤ℤ◌, ◌<ℤ◌, ◌+ℤ◌, ◌-ℤ◌}
use science_ladder.Ticks.{parse_ticks, to_string, set_string}
use science_ladder.Ticks.RoundTrip.{to_string-parse_ticks}
use science_ladder.Metric.{Metric, is_maximize, is_minimize}
use science_ladder.Ticks.{all_digits, natural_match, ticks_match, value, unsigned, digits}
use science_ladder.Ticks.RoundTrip.{parse_ticks-to_string}
use science_ladder.Metric.{maximize, minimize}
use science_ladder.Decimal.{Rat, decimal}
use science_ladder.Score.{
  normalize_score, normalize_rational_score, quo, truncate, round_ticks, confirm_scores,
}
use science_ladder.Score.Normal.{times, ◌≤ℚ◌, ◌<ℚ◌, normalize_score-floor, normalize_score-ceiling}
use science_ladder.Score.Confirm.{confirm_scores-maximize}
use science_ladder.Frontier.{frontier_improvement}
use science_ladder.Frontier.Improve.{frontier_improvement-maximize}
use science_ladder.Compare.{meaningful, confirmed_score}
use science_ladder.Compare.Agree.{confirmed_score-confirm_scores, frontier_improvement-meaningful}

parse_ticks-to_string_example : parse_ticks (to_string (negsuc 41)) ≡ ok (negsuc 41)
unfolding digits to_string
parse_ticks-to_string_example = parse_ticks-to_string (negsuc 41) (omega arith)

to_string-parse_ticks_example : to_string (pos 42) ≡ text "42"
unfolding text_eq parse_ticks ticks_match all_digits natural_match value unsigned set_string
    is_maximize is_minimize digits to_string
to_string-parse_ticks_example = to_string-parse_ticks (text "42") refl

-- ParseTicks refuses a second spelling.
padded :
    (parse_ticks (text "042") ≡ err (message "invalid integer ticks"))
    × (parse_ticks (text "-0") ≡ err (message "invalid integer ticks"))
    × (parse_ticks (text "+1") ≡ err (message "invalid integer ticks"))
unfolding text_eq parse_ticks ticks_match all_digits natural_match value unsigned set_string
    is_maximize is_minimize digits to_string
padded = (refl, refl, refl)

abbrev metric : Bytes → Metric
metric direction = record {
  name = text "length";
  direction = direction;
  unit = text "steps";
  quantum = text "0.5";
  baseline_ticks = text "10";
  minimum_delta_ticks = text "1";
  tolerance_ticks = text "2";
  domain_min_ticks = text "-100";
  domain_max_ticks = [];
}

abbrev half : Rat
half = record { num = pos 5; den = 10 }

normalize_score-floor_example :
    (t : ℤ) × (parse_ticks (text "-3") ≡ ok t)
    × (times t half ≤ℚ record { num = negsuc 12; den = 10 })
    × (record { num = negsuc 12; den = 10 } <ℚ times (t +ℤ pos 1) half)
unfolding text_eq parse_ticks ticks_match all_digits natural_match value unsigned set_string
    is_maximize is_minimize digits to_string decimal normalize_score normalize_rational_score quo
    truncate round_ticks scale ◌+ℤ◌ ◌-ℤ◌
normalize_score-floor_example =
    normalize_score-floor (text "-1.3") (metric maximize) refl refl refl refl

normalize_score-ceiling_example :
    (t : ℤ) × (parse_ticks (text "3") ≡ ok t)
    × (record { num = pos 13; den = 10 } ≤ℚ times t half)
    × (times (t -ℤ pos 1) half <ℚ record { num = pos 13; den = 10 })
unfolding text_eq parse_ticks ticks_match all_digits natural_match value unsigned set_string
    is_maximize is_minimize digits to_string decimal normalize_score normalize_rational_score quo
    truncate round_ticks scale ◌+ℤ◌ ◌-ℤ◌
normalize_score-ceiling_example =
    normalize_score-ceiling (text "1.3") (metric minimize) refl refl refl refl

confirm_scores-maximize_example :
    (z : ℤ) × (parse_ticks (text "12") ≡ ok z)
    × (z ≤ℤ pos 12)
    × (z ≤ℤ pos 14)
    × ((text "12" ≡ text "12") ⊎ (text "12" ≡ text "14"))
    × (pos (abs_ℕ (pos 12 -ℤ pos 14)) ≤ℤ pos 2)
unfolding text_eq parse_ticks ticks_match all_digits natural_match value unsigned set_string
    is_maximize is_minimize digits to_string confirm_scores
confirm_scores-maximize_example =
    confirm_scores-maximize (text "12") (text "14") (text "12") (metric maximize) (pos 12) (pos 14)
      (pos 2) refl refl refl refl refl

confirmed_score-confirm_scores_example :
    (confirmed_score (text "12") (text "14") (metric maximize) ≡ ok (text "12"))
    ↔ (confirm_scores (text "12") (text "14") (metric maximize) ≡ ok (text "12"))
unfolding text_eq parse_ticks ticks_match all_digits natural_match value unsigned set_string
    is_maximize is_minimize digits to_string
confirmed_score-confirm_scores_example =
    confirmed_score-confirm_scores (text "12") (text "14") (metric maximize) (pos 12) (pos 14)
      (pos 2) refl refl refl (text "12") (omega arith) refl

frontier_improvement-meaningful_example :
    frontier_improvement (text "12") (text "10") (metric maximize)
    ≡ meaningful (text "12") (text "10") (metric maximize)
unfolding text_eq parse_ticks ticks_match all_digits natural_match value unsigned set_string
    is_maximize is_minimize digits to_string
frontier_improvement-meaningful_example =
    frontier_improvement-meaningful (text "12") (text "10") (metric maximize) (pos 12) (pos 10)
      (pos 1) refl refl refl (omega arith) refl

frontier_improvement-maximize_example :
    (frontier_improvement (text "12") (text "10") (metric maximize) ≡ true)
    ↔ ((pos 0 <ℤ pos 1) × (pos 10 +ℤ pos 1 ≤ℤ pos 12))
unfolding text_eq parse_ticks ticks_match all_digits natural_match value unsigned set_string
    is_maximize is_minimize digits to_string
frontier_improvement-maximize_example =
    frontier_improvement-maximize (text "12") (text "10") (metric maximize) (pos 12) (pos 10)
      (pos 1) refl refl refl refl
