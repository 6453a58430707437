-- ===== src/Tests/Resulted.antt =====
-- Runs of the manifest's validation and of the results.
use science_ladder.Base.{
  ◌≡◌, ◌≢◌, ◌↔◌, refl, Bool, true, false, some, List, [], ◌∷◌, In, first, later, Bytes, text,
  is_empty, text_eq, ok,
}
use science_ladder.Base.Int.{scale, ◌-ℤ◌, ◌+ℤ◌, neg}
use science_ladder.Ticks.{
  parse_ticks, ticks_match, all_digits, natural_match, value, unsigned, set_string, to_string,
}
use science_ladder.Decimal.{
  decimal, decimal_match, before_point, after_point, trim_signs, trim_zeros, rat_of_decimal,
}
use science_ladder.Metric.{is_maximize, is_minimize}
use science_ladder.Score.{
  qualifies, compare_ticks, normalize_rational_score, quo, truncate, round_ticks,
}
use science_ladder.Frontier.{frontier_improvement}
use science_ladder.Signing.{lookup}
use science_ladder.Audit.Merkle.{unhex, all_lower}
use science_ladder.Digests.{valid_digest}
use science_ladder.Artifacts.{
  split, join, push_part, keep_parts, reverse_onto, clean, has_bad_rune, has_reserved_part,
  validate_path, is_git,
}
use science_ladder.Artifacts.Paths.{validate_path_lem}
use science_ladder.Artifacts.Contract.{
  check_allowed_paths, is_source_extension, check_extensions, validate_submission_contract,
}
use science_ladder.Evaluation.{is_identifier, all_marks, measurement_number}
use science_ladder.Evaluation.Values.{
  check_value, check_values, validate_values, find_measurement, check_predicates,
  validate_predicates, meets_predicates, is_violated, meets_predicate, meets_all,
}
use science_ladder.Evaluation.Values.Predicates.{AllMet, meets_predicates_iff}
use science_ladder.Evaluation.Values.Total.{meets_predicates_total}
use science_ladder.Manifest.Sources.{check_sources, validate_sources}
use science_ladder.Manifest.Ranking.{
  check_domain_bound, validate_metric, check_milestones, validate_milestones, check_gates,
  validate_gates,
}
use science_ladder.Manifest.Ranking.Improve.{
  starts, validate_manifest-frontier_improvement, validate_manifest-qualifies,
}
use science_ladder.Manifest.Profile.{
  check_argv, validate_profile, validate_suite, is_class, exceeds_bounds, validate_resources, is_v2,
}
use science_ladder.Manifest.Fixtures.{check_named, check_fixtures, validate_fixtures}
use science_ladder.Manifest.Validate.{
  bad_identity, validate_v1, is_slug, bad_text, is_classified, validate_version, validate_science,
  validate_ranking, validate_execution, validate_manifest,
}
use science_ladder.Results.{
  check_contract, check_timing, check_hard_gates, primary_ticks, result_ticks, check_result,
  validate_result, RunReceipt, ValidatorResult, validator_outcome, any_failed,
}
use science_ladder.Results.Ranked.{validate_run_measurement_evidence_lem}
use science_ladder.Tests.Locked.{
  metric, unicode, parse_url, manifest, low, high, contract, at_least_six, measured_manifest, typed,
  run, json, long,
}
use science_ladder.Results.Evidence.{
  compare_gates, check_run_evidence, run_evidence, validate_run_measurement_evidence, check_runs,
  achieved_by, confirmed_achievement,
}
use science_ladder.Results.Achieved.{ShownTwice, confirmed_achievement-Shows}

path_accepted : validate_path unicode (text "data/run.json") ≡ ok tt
unfolding validate_path split join push_part keep_parts reverse_onto clean has_bad_rune
    has_reserved_part text_eq
path_accepted = refl

last_part : In (text "run.json") (split (text "data/run.json"))
unfolding split
last_part = later first

validate_path_lem_example :
    (is_empty (text "run.json") ≡ false)
    × (text "run.json" ≢ text ".")
    × (text "run.json" ≢ text "..")
    × (is_git (text "run.json") ≡ false)
validate_path_lem_example =
    validate_path_lem unicode (text "data/run.json") (text "run.json") path_accepted last_part

accepted : validate_manifest parse_url unicode manifest ≡ ok tt
unfolding validate_manifest bad_identity is_identifier all_marks validate_version validate_v1
    validate_science bad_text is_slug validate_sources check_sources is_classified validate_ranking
    validate_metric decimal decimal_match before_point after_point trim_signs trim_zeros
    rat_of_decimal natural_match all_digits value ticks_match parse_ticks unsigned set_string
    check_domain_bound validate_milestones check_milestones validate_gates check_gates is_maximize
    is_minimize ◌-ℤ◌ neg validate_execution validate_submission_contract check_allowed_paths
    check_extensions is_source_extension validate_path split join push_part keep_parts reverse_onto
    clean has_bad_rune has_reserved_part validate_profile valid_digest unhex all_lower check_argv
    validate_suite validate_resources is_class exceeds_bounds ◌+ℤ◌ scale validate_fixtures
    check_fixtures check_named text_eq
accepted = refl

validate_manifest-frontier_improvement_example :
    frontier_improvement (text "12") (text "10") metric ≡ true
validate_manifest-frontier_improvement_example =
    validate_manifest-frontier_improvement parse_url unicode manifest low accepted first

crossed_high : qualifies (text "15") (text "14") metric.direction ≡ ok true
unfolding qualifies compare_ticks parse_ticks set_string ticks_match natural_match all_digits value
    unsigned is_maximize text_eq
crossed_high = refl

validate_manifest-qualifies_example : qualifies (text "15") (text "12") metric.direction ≡ ok true
validate_manifest-qualifies_example =
    validate_manifest-qualifies parse_url unicode manifest low high (text "15") accepted
      (starts first) crossed_high

valued : validate_values typed.measurements contract ≡ ok tt
unfolding validate_values check_values check_value lookup measurement_number parse_ticks set_string
    ticks_match natural_match all_digits value unsigned scale text_eq
valued = refl

asked : validate_predicates (at_least_six ∷ []) contract ≡ ok tt
unfolding validate_predicates check_predicates find_measurement measurement_number parse_ticks
    set_string ticks_match natural_match all_digits value unsigned text_eq
asked = refl

meets_predicates_iff_example :
    (meets_predicates typed.measurements (at_least_six ∷ []) contract ≡ ok true)
    ↔ AllMet typed.measurements (at_least_six ∷ []) contract.measurements
meets_predicates_iff_example =
    meets_predicates_iff typed.measurements (at_least_six ∷ []) contract valued asked

meets_predicates_total_example :
    (b : Bool) × (meets_predicates typed.measurements (at_least_six ∷ []) contract ≡ ok b)
meets_predicates_total_example =
    meets_predicates_total typed.measurements (at_least_six ∷ []) contract valued asked

abbrev runs : List RunReceipt
runs = run (text "job-1") ∷ run (text "job-2") ∷ []

achieved : confirmed_achievement unicode json measured_manifest long runs ≡ ok true
unfolding confirmed_achievement achieved_by check_runs validate_run_measurement_evidence
    run_evidence check_run_evidence compare_gates validator_outcome meets_predicates
    validate_predicates check_predicates find_measurement meets_all meets_predicate is_violated
    validate_result check_result check_contract check_timing check_hard_gates result_ticks
    primary_ticks validate_values check_values check_value lookup measurement_number
    normalize_rational_score quo round_ticks truncate to_string decimal decimal_match before_point
    after_point trim_signs trim_zeros rat_of_decimal parse_ticks set_string ticks_match
    natural_match all_digits value unsigned is_maximize is_minimize scale ◌+ℤ◌ ◌-ℤ◌ text_eq
achieved = refl

confirmed_achievement-Shows_example : ShownTwice unicode json measured_manifest contract long runs
confirmed_achievement-Shows_example =
    confirmed_achievement-Shows unicode json measured_manifest contract long runs refl refl achieved

proved :
    validate_run_measurement_evidence unicode json (run (text "job-1")) measured_manifest ≡ ok tt
unfolding validate_run_measurement_evidence run_evidence check_run_evidence compare_gates
    validator_outcome validate_result check_result check_contract check_timing check_hard_gates
    result_ticks primary_ticks validate_values check_values check_value lookup measurement_number
    normalize_rational_score quo round_ticks truncate to_string decimal decimal_match before_point
    after_point trim_signs trim_zeros rat_of_decimal parse_ticks set_string ticks_match
    natural_match all_digits value unsigned is_maximize is_minimize scale ◌+ℤ◌ ◌-ℤ◌ text_eq
proved = refl

is_v2_measured : is_v2 measured_manifest.api_version ≡ true
unfolding text_eq
is_v2_measured = refl

validate_run_measurement_evidence_lem_example :
    (v : ValidatorResult) × (content : Bytes) × (r : ValidatorResult) × (some typed ≡ some v)
    × (json.marshal v ≡ ok content)
    × (validate_result unicode json content measured_manifest ≡ ok (r, text "14"))
    × (any_failed r.gates ≡ false)
validate_run_measurement_evidence_lem_example =
    validate_run_measurement_evidence_lem unicode json (run (text "job-1")) measured_manifest
      is_v2_measured refl proved
