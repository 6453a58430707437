-- ===== src/Tests/Awarded.antt =====
-- A milestone that is awarded for measurements.
use science_ladder.Adjudication.Crossed.{IsDistinct}
use science_ladder.Adjudication.Milestones.{judge-insert_claims}
use science_ladder.Base.{List, ◌≡◌, ◌⊎◌, refl, true, some, [], ◌∷◌, In, text, is_empty, text_eq, ok}
use science_ladder.Ticks.{
  set_string, parse_ticks, ticks_match, all_digits, natural_match, value, unsigned, to_string,
}
use science_ladder.Metric.{is_maximize, is_minimize}
use science_ladder.Results.{
  RunReceipt, check_contract, check_timing, check_hard_gates, primary_ticks, result_ticks,
  check_result, validate_result, validator_outcome,
}
use science_ladder.Tests.Locked.{manifest, measured_manifest, contract}
use science_ladder.Compare.{better, crosses, meaningful}
use science_ladder.Adjudication.{
  scored_verdict, Claim, Submission, Db, measured, Standing, go, round, judge, crossed, is_eligible,
  find_sequence, valid_policy, write, written, receipt_for, has_receipt, insert_claims, is_claimed,
  return_units, release, audit, finalize_row, finalize_one, publish_receipts, enqueue,
  next_standing, unmarshal_all, find_milestone,
}
use science_ladder.Adjudication.Claims.{holder}
use science_ladder.Results.Achieved.{ShownTwice}
use science_ladder.Adjudication.Achieved.{round-Shows}
use science_ladder.Manifest.{Milestone}
use science_ladder.Signing.{lookup}
use science_ladder.Base.Int.{scale, ◌+ℤ◌, ◌-ℤ◌}
use science_ladder.Decimal.{
  decimal, decimal_match, before_point, after_point, trim_signs, trim_zeros, rat_of_decimal,
}
use science_ladder.Score.{normalize_rational_score, quo, truncate, round_ticks}
use science_ladder.Evaluation.{measurement_number}
use science_ladder.Evaluation.Values.{
  check_value, check_values, validate_values, find_measurement, check_predicates,
  validate_predicates, is_violated, meets_predicate, meets_all, meets_predicates,
}
use science_ladder.Results.Evidence.{
  compare_gates, check_run_evidence, run_evidence, validate_run_measurement_evidence, check_runs,
  achieved_by, confirmed_achievement,
}
use science_ladder.Tests.Adjudicated.{two, env, submission, db, from, next_db, next_from}

-- A version whose milestone asks for measurements, and a submission with two runs.
abbrev measured_one : Submission
measured_one = record (submission 1 (text "validated") (text "14")) {
  measured_runs = text "job-1" ∷ text "job-2" ∷ [];
}

abbrev measured_db : Db
measured_db = record db {
  submissions = measured_one ∷ [];
  tiers = record { id = text "long"; threshold = text "12" } ∷ [];
}

abbrev shown_db : Db
shown_db = next_db (round env measured_manifest measured_db from)

abbrev shown_from : Standing
shown_from = next_from (round env measured_manifest measured_db from)

shown : round env measured_manifest measured_db from ≡ go shown_db shown_from
unfolding holder round find_sequence valid_policy text_eq judge crossed is_claimed unmarshal_all
    find_milestone confirmed_achievement achieved_by check_runs validate_run_measurement_evidence
    run_evidence check_run_evidence compare_gates validator_outcome meets_predicates
    validate_predicates check_predicates find_measurement meets_all meets_predicate is_violated
    validate_result check_result check_contract check_timing check_hard_gates result_ticks
    primary_ticks validate_values check_values check_value lookup measurement_number
    normalize_rational_score quo round_ticks truncate to_string decimal decimal_match before_point
    after_point trim_signs trim_zeros rat_of_decimal parse_ticks ticks_match natural_match
    all_digits value unsigned is_minimize scale ◌+ℤ◌ ◌-ℤ◌ is_eligible crosses better meaningful
    set_string is_maximize write written receipt_for has_receipt insert_claims return_units release
    audit finalize_row finalize_one publish_receipts enqueue next_standing
shown = refl

held : holder (text "long") shown_db.claims ≡ some (1 ∷ [])
unfolding holder round find_sequence valid_policy text_eq judge crossed is_claimed unmarshal_all
    find_milestone confirmed_achievement achieved_by check_runs validate_run_measurement_evidence
    run_evidence check_run_evidence compare_gates validator_outcome meets_predicates
    validate_predicates check_predicates find_measurement meets_all meets_predicate is_violated
    validate_result check_result check_contract check_timing check_hard_gates result_ticks
    primary_ticks validate_values check_values check_value lookup measurement_number
    normalize_rational_score quo round_ticks truncate to_string decimal decimal_match before_point
    after_point trim_signs trim_zeros rat_of_decimal parse_ticks ticks_match natural_match
    all_digits value unsigned is_minimize scale ◌+ℤ◌ ◌-ℤ◌ is_eligible crosses better meaningful
    set_string is_maximize write written receipt_for has_receipt insert_claims return_units release
    audit finalize_row finalize_one publish_receipts enqueue next_standing
held = refl

round-Shows_example :
    (ss : Submission) × (a : Milestone) × (runs : List RunReceipt) × (find_sequence 1
        measured_db.submissions
      ≡ some ss)
    × (ss.id ≡ 1 ∷ [])
    × In a measured_manifest.milestones
    × (a.id ≡ text "long")
    × (measured env measured_manifest ss ≡ ok runs)
    × ((is_empty a.requires ≡ true)
        ⊎ ShownTwice env.unicode env.json measured_manifest contract a runs)
unfolding holder
round-Shows_example =
    round-Shows env measured_manifest contract measured_db shown_db from shown_from (text "long")
      (1 ∷ []) shown refl refl held

-- A milestone that is claimed already, and one that is open.
abbrev old_claims : List Claim
old_claims = record { milestone = text "first"; submission = 5 ∷ []; receipt = [] } ∷ []

given :
    judge env manifest from db.tiers old_claims two
    ≡ ok (scored_verdict manifest from two (text "15") (text "second" ∷ []))
unfolding judge crossed is_claimed is_eligible crosses better meaningful set_string is_maximize
    text_eq
given = refl

tiers-IsDistinct : IsDistinct db.tiers
unfolding IsDistinct text_eq
tiers-IsDistinct = ((refl, tt), (tt, tt))

judge-insert_claims_example :
    (claims : List Claim) × (insert_claims two.id (text "r") (text "second" ∷ []) old_claims
      ≡ ok claims)
judge-insert_claims_example =
    judge-insert_claims env manifest from db.tiers old_claims two (text "r") tiers-IsDistinct given
