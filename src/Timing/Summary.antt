-- ===== src/Timing/Summary.antt =====
-- pkg/protocol/measurement.go: `SummarizeTimings` and `ValidateTimingEvidence`.
use science_ladder.Base.{
  ℕ, ◌-◌, ◌/◌, ◌%◌, Bool, ◌&&◌, ◌||◌, not, Option, none, some, List, ◌==◌, if◌then◌else◌, Bytes,
  text, text_eq, length, Result, ok, err, message, fault, ◌>>=◌, ◌>>◌, reject_if, get_elem?,
}
use science_ladder.Base.Int.{ℤ, pos, eqb_ℤ, pos_part}
use science_ladder.Decimal.{Rat, decimal, ltb_ℚ, leb_ℚ}
use science_ladder.Score.{quo}
use science_ladder.Artifacts.{Unicode}
use science_ladder.Timing.{
  TimingTrial, trial_ratios, check_warmups, same_bool, median_interval_index,
}
use science_ladder.Timing.Policy.{MeasurementPolicy, validate_measurement_policy}
use science_ladder.Timing.Ratio.{add, sub, half, rational_string, sort_ratios}

pub record TimingSummary : Type 0 where
  pub median_ratio : Bytes
  pub lower_ratio : Bytes
  pub upper_ratio : Bytes
  pub confidence_ppm : ℤ
  pub accepted_trials : ℕ
  pub outcome : Bytes
  pub practical_gain : Bool

pub record TimingEvidence : Type 0 where
  pub baseline_digest : Bytes
  pub warmups : List TimingTrial
  pub trials : List TimingTrial
  pub summary : TimingSummary

-- An index out of range is a panic, written as a fault.
abbrev pub or_panic : Option Rat → Result Rat
or_panic none = err fault
or_panic (some r) = ok r

unfoldable pub at : List Rat → ℕ → Result Rat
at ratios i = or_panic (get_elem? ratios i)

-- The middle ratio, or half of the sum of the two in the middle.
unfoldable pub median : List Rat → Result Rat
unfolding at add half
median ratios =
    let n = length ratios in
    do
      middle ← at ratios (n / 2)
      (if n % 2 == 0
          then (do below ← at ratios (n / 2 - 1); ok (half (add middle below)))
          else ok middle)

abbrev pub summary_of : MeasurementPolicy → ℕ → Rat → Rat → Rat → Rat → Rat → TimingSummary
summary_of p n middle lower upper max_width minimum =
    let wide = ltb_ℚ max_width (quo (sub upper lower) middle) in
    record {
      median_ratio = rational_string middle;
      lower_ratio = rational_string lower;
      upper_ratio = rational_string upper;
      confidence_ppm = p.confidence_ppm;
      accepted_trials = n;
      outcome = if wide then text "inconclusive" else text "valid";
      practical_gain = not wide && leb_ℚ minimum lower;
    }

-- From the sorted ratios on. The two decimals were read by the policy's validation.
unfoldable pub summarize_ratios : MeasurementPolicy → List Rat → Result TimingSummary
unfolding at median quo sub rational_string median_interval_index decimal
summarize_ratios p ratios =
    let n = length ratios in
    let k = median_interval_index n (pos_part p.confidence_ppm) in
    do
      middle ← median ratios
      lower ← at ratios (k - 1)
      upper ← at ratios (n - k)
      max_width ← decimal p.max_relative_width
      minimum ← decimal p.minimum_speedup
      ok (summary_of p n middle lower upper max_width minimum)

unfoldable pub summarize_timings :
    Unicode → List TimingTrial → MeasurementPolicy → Result TimingSummary
unfolding validate_measurement_policy trial_ratios sort_ratios summarize_ratios
summarize_timings u trials p = do
  validate_measurement_policy u p
  reject_if (not (eqb_ℤ (pos (length trials)) p.repetitions))
      (message "missing or extra measured trials")
  ratios ← trial_ratios 0 trials
  summarize_ratios p (sort_ratios ratios)

unfoldable pub same_summary : TimingSummary → TimingSummary → Bool
unfolding text_eq
same_summary a b =
    text_eq a.median_ratio b.median_ratio
    && text_eq a.lower_ratio b.lower_ratio
    && text_eq a.upper_ratio b.upper_ratio
    && eqb_ℤ a.confidence_ppm b.confidence_ppm
    && a.accepted_trials == b.accepted_trials
    && text_eq a.outcome b.outcome
    && same_bool a.practical_gain b.practical_gain

unfoldable pub validate_timing_evidence :
    Unicode → TimingEvidence → MeasurementPolicy → Result TimingSummary
unfolding summarize_timings same_summary check_warmups text_eq
validate_timing_evidence u e p = do
  reject_if
      (not (text_eq e.baseline_digest p.baseline_digest)
        || not (eqb_ℤ (pos (length e.warmups)) p.warmups))
      (message "baseline or warmup schedule mismatch")
  check_warmups 0 e.warmups
  summary ← summarize_timings u e.trials p
  reject_if (not (same_summary summary e.summary))
      (message "reported timing summary differs from raw paired evidence")
  ok summary
