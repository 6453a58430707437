-- ===== src/Results/Measured.antt =====
-- pkg/protocol/measurement.go: `ConfirmMeasuredRuns` and `ValidateMeasuredFixture`.
use science_ladder.Base.{
  Bool, false, ◌||◌, not, Option, none, some, [], if◌then◌else◌, Bytes, text, is_some, text_eq,
  Result, ok, err, message, fault, ◌>>=◌, ◌>>◌, reject_if,
}
use science_ladder.Ticks.{parse_ticks}
use science_ladder.Decimal.{Rat, ltb_ℚ}
use science_ladder.Artifacts.{Unicode}
use science_ladder.Evaluation.{measurement_number}
use science_ladder.Evaluation.Contract.{EvaluationContract}
use science_ladder.Evaluation.Values.{used}
use science_ladder.Timing.Policy.{MeasurementPolicy, one}
use science_ladder.Timing.Summary.{TimingEvidence, TimingSummary}
use science_ladder.Manifest.{Manifest, Fixture, has_mode}
use science_ladder.Manifest.Profile.{is_v2}
use science_ladder.Manifest.Ranking.{is_less}
use science_ladder.Results.{RunReceipt, Json}
use science_ladder.Results.Evidence.{validate_run_measurement_evidence, typed_result}

abbrev pub policy_of : Option EvaluationContract → Option MeasurementPolicy
policy_of none = none
policy_of (some e) = e.measurement

abbrev pub has_policy : Option EvaluationContract → Bool
has_policy e = is_some (policy_of e)

-- `r.ValidatorResult.Timing.Summary`; without timings that is a nil dereference.
abbrev pub summary_of : Option TimingEvidence → Result TimingSummary
summary_of none = err fault
summary_of (some t) = ok t.summary

unfoldable pub timing_summary : RunReceipt → Result TimingSummary
timing_summary run = do typed ← typed_result run; summary_of typed.timing

unfoldable pub ratio : Bytes → Result Rat
unfolding measurement_number
ratio value = used (measurement_number value (text "rational"))

-- The four ratios are read before the comparisons here; evidence that is accepted has them all.
unfoldable pub confirm_measured_runs :
    Unicode → Json → RunReceipt → RunReceipt → Manifest → Result Bytes
unfolding validate_run_measurement_evidence timing_summary ratio parse_ticks text_eq
confirm_measured_runs u json a b m = do
  reject_if
      (not (is_v2 m.api_version)
        || not (has_policy m.evaluation)
        || not (has_mode (text "performance") m.evaluation)
        || not (text_eq a.outcome (text "valid"))
        || not (text_eq b.outcome (text "valid")))
      (message "valid measured repeats required")
  validate_run_measurement_evidence u json a m
  validate_run_measurement_evidence u json b m
  x ← timing_summary a
  y ← timing_summary b
  xl ← ratio x.lower_ratio
  xu ← ratio x.upper_ratio
  yl ← ratio y.lower_ratio
  yu ← ratio y.upper_ratio
  reject_if (ltb_ℚ yu xl || ltb_ℚ xu yl) (message "fresh timing intervals do not overlap")
  ok (
      if is_less (parse_ticks a.score_ticks) (parse_ticks b.score_ticks)
      then a.score_ticks
      else b.score_ticks)

-- A baseline run must not look faster or slower than itself.
unfoldable pub check_bias : RunReceipt → Result (Unit {0})
unfolding timing_summary ratio
check_bias run = do
  s ← timing_summary run
  lo ← ratio s.lower_ratio
  hi ← ratio s.upper_ratio
  reject_if (ltb_ℚ one lo || ltb_ℚ hi one)
      (message "baseline self-comparison shows measurement bias")

abbrev pub is_reference : Bytes → Option MeasurementPolicy → Bool
is_reference digest none = false
is_reference digest (some p) = text_eq digest p.baseline_digest

unfoldable pub check_baseline_runs : RunReceipt → RunReceipt → Manifest → Result (Unit {0})
unfolding check_bias text_eq
check_baseline_runs a b m = do
  reject_if (not (is_reference a.artifact_digest (policy_of m.evaluation)))
      (message "baseline fixture is not the frozen reference program")
  check_bias a
  check_bias b

unfoldable pub validate_measured_fixture :
    Unicode → Json → RunReceipt → RunReceipt → Manifest → Fixture → Result Bytes
unfolding confirm_measured_runs check_baseline_runs text_eq
validate_measured_fixture u json a b m f =
    let measured = (do
      score ← confirm_measured_runs u json a b m
      (if text_eq f.name (text "baseline") then check_baseline_runs a b m else ok tt)
      ok score) in
    do
      reject_if
          (not (text_eq a.outcome f.expected_outcome)
            || not (text_eq b.outcome a.outcome)
            || not (text_eq a.artifact_digest b.artifact_digest))
          (message "fixture outcome or artifact changed")
      (if text_eq a.outcome (text "valid") then measured else ok [])
