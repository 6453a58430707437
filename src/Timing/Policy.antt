-- ===== src/Timing/Policy.antt =====
-- pkg/protocol/measurement.go: `ValidateMeasurementPolicy`.
use science_ladder.Base.{
  ℕ, Bool, true, ◌||◌, not, List, ltb, Bytes, text, has_prefix, trim_suffix, text_eq, Result, ok,
  err, message, ◌>>◌, reject_if, is_ok,
}
use science_ladder.Base.Int.{ℤ, pos, ltb_ℤ, leb_ℤ, pos_part}
use science_ladder.Decimal.{Rat, decimal, ltb_ℚ, leb_ℚ}
use science_ladder.Digests.{valid_digest}
use science_ladder.Artifacts.{Unicode, validate_path}
use science_ladder.Evaluation.{bounded_text}
use science_ladder.Evaluation.Stage.{validate_stage_argv}
use science_ladder.Timing.{median_interval_index}

pub record MeasurementPolicy : Type 0 where
  pub estimator : Bytes
  pub warmups : ℤ
  pub repetitions : ℤ
  pub order : Bytes
  pub confidence_ppm : ℤ
  pub max_relative_width : Bytes
  pub minimum_speedup : Bytes
  pub baseline_digest : Bytes
  pub baseline_path : Bytes
  pub baseline_build : List Bytes
  pub baseline_run : List Bytes
  pub timer_boundary : Bytes
  pub population : Bytes

abbrev pub one : Rat
one = record { num = pos 1; den = 1 }

abbrev pub is_wide : Result Rat → Bool
is_wide (err e) = true
is_wide (ok w) = leb_ℤ w.num (pos 0) || ltb_ℚ one w

abbrev pub is_no_gain : Result Rat → Bool
is_no_gain (err e) = true
is_no_gain (ok g) = leb_ℚ g one

abbrev pub outside : ℤ → ℕ → ℕ → Bool
outside z low high = ltb_ℤ z (pos low) || ltb_ℤ (pos high) z

-- The index is computed for the two numbers only after their ranges are checked.
unfoldable pub validate_measurement_policy : Unicode → MeasurementPolicy → Result (Unit {0})
unfolding validate_path validate_stage_argv valid_digest text_eq decimal median_interval_index
validate_measurement_policy u p = do
  reject_if
      (not (text_eq p.estimator (text "paired-median-ratio"))
        || not (text_eq p.order (text "alternating"))
        || outside p.warmups 1 100
        || outside p.repetitions 9 255
        || outside p.confidence_ppm 900000 999999)
      (message "unsupported or insufficient paired measurement schedule")
  reject_if
      (not (is_ok (validate_path u (trim_suffix p.baseline_path (text "/"))))
        || not (has_prefix p.baseline_path (text "baseline/"))
        || not (is_ok (validate_stage_argv p.baseline_build))
        || not (is_ok (validate_stage_argv p.baseline_run)))
      (message "frozen baseline source path and commands required")
  reject_if
      (not (valid_digest p.baseline_digest)
        || not (bounded_text u.trim_space p.timer_boundary)
        || not (bounded_text u.trim_space p.population))
      (message "baseline bytes, timer boundary and target population must be frozen")
  reject_if (is_wide (decimal p.max_relative_width))
      (message "relative interval width must be in (0,1]")
  reject_if (is_no_gain (decimal p.minimum_speedup)) (message "practical speedup must exceed one")
  reject_if (ltb (median_interval_index (pos_part p.repetitions) (pos_part p.confidence_ppm)) 1)
      (message "too few trials for the requested median confidence")
