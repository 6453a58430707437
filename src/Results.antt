-- ===== src/Results.antt =====
-- pkg/protocol/scores.go: `ValidateResult` and `ValidatorOutcome`; pkg/protocol/types.go: the result of a
-- validator and the receipt of a run. A Go map is an association list in which a key stands once.
pub mod Evidence
pub mod Measured
pub mod Claim
pub mod Achieved
pub mod Ranked
use science_ladder.Base.{
  ℕ, ◌/◌, Bool, false, ◌||◌, not, Option, none, some, List, [], ◌∷◌, ltb, ◌==◌, if◌then◌else◌,
  Bytes, text, is_empty, is_none, is_some, text_eq, length, Result, ok, err, message, ◌>>=◌, ◌>>◌,
  reject_if,
}
use science_ladder.Signing.{lookup}
use science_ladder.Metric.{Metric}
use science_ladder.Score.{normalize_score, normalize_rational_score}
use science_ladder.Lease.{manifest_v2}
use science_ladder.Artifacts.{Unicode}
use science_ladder.Evaluation.{MeasurementDefinition, measurement_number}
use science_ladder.Evaluation.Contract.{EvaluationContract}
use science_ladder.Evaluation.Values.{Values, validate_values, value_of}
use science_ladder.Timing.Policy.{MeasurementPolicy}
use science_ladder.Timing.Summary.{TimingEvidence, validate_timing_evidence}
use science_ladder.Manifest.{Manifest, manifest_v1}

abbrev pub Gates : Type 0
Gates = List (Bytes × Bool)

pub record ValidatorResult : Type 0 where
  pub timing : Option TimingEvidence
  pub comparison_id : Bytes
  pub measurements : Values
  pub api_version : Bytes
  pub kind : Bytes
  pub score : Bytes
  pub gates : Gates

-- The report of a build, which only preparation jobs carry, is left out.
pub record RunReceipt : Type 0 where
  pub validator_result : Option ValidatorResult
  pub parent_job_digest : Bytes
  pub verification_policy : Bytes
  pub acceptance_receipt_digest : Bytes
  pub deployment_mode : Bytes
  pub official_acceptance : Bool
  pub api_version : Bytes
  pub kind : Bytes
  pub id : Bytes
  pub created_at : ℕ
  pub producer : Bytes
  pub job_id : Bytes
  pub job_digest : Bytes
  pub challenge_lock_digest : Bytes
  pub artifact_digest : Bytes
  pub suite_digest : Bytes
  pub execution_profile_digest : Bytes
  pub runner_epoch : Bytes
  pub fencing_token : ℕ
  pub host_id : Bytes
  pub host_group : Bytes
  pub official : Bool
  pub outcome : Bytes
  pub score_ticks : Bytes
  pub gates : Gates
  pub duration_millis : ℕ
  pub cleanup_attested : Bool

-- `DecodeStrict` and `json.Marshal` of a result.
pub record Json : Type 0 where
  pub decode_strict : Bytes → Result ValidatorResult
  pub marshal : ValidatorResult → Result Bytes

-- The version of a result, and what it may contain.
unfoldable pub check_contract :
    Bytes → Option EvaluationContract → ValidatorResult → Result (Unit {0})
unfolding validate_values text_eq
check_contract version none r =
    if text_eq version manifest_v1
    then reject_if
        (is_some r.timing || not (is_empty r.comparison_id) || not (is_empty r.measurements))
        (message "v1 results cannot contain v2 measurement semantics")
    else if text_eq version manifest_v2
    then err (message "result belongs to a different comparison series")
    else err (message "unsupported manifest version")
check_contract version (some e) r =
    let measured = (do
      reject_if (not (text_eq r.comparison_id e.comparison_id))
          (message "result belongs to a different comparison series")
      validate_values r.measurements e) in
    if text_eq version manifest_v1
    then err (message "v1 results cannot contain v2 measurement semantics")
    else if text_eq version manifest_v2
    then measured
    else err (message "unsupported manifest version")

-- Timings of a performance evaluation.
unfoldable pub check_timings :
    Unicode → Bytes → Option TimingEvidence → Option MeasurementPolicy → Result (Unit {0})
unfolding validate_timing_evidence text_eq
check_timings u score none policy = err (message "trusted paired timing evidence required")
check_timings u score (some t) none = err (message "trusted paired timing evidence required")
check_timings u score (some t) (some p) = do
  summary ← validate_timing_evidence u t p
  reject_if (not (text_eq score summary.lower_ratio))
      (message "timing score must equal the conservative confidence bound")

unfoldable pub check_timing :
    Unicode → Option EvaluationContract → ValidatorResult → Result (Unit {0})
unfolding check_timings text_eq
check_timing u none r =
    reject_if (is_some r.timing) (message "timing evidence is outside this evaluation contract")
check_timing u (some e) r =
    let timed = check_timings u r.score r.timing e.measurement in
    if text_eq e.mode (text "performance")
    then timed
    else reject_if (is_some r.timing)
        (message "timing evidence is outside this evaluation contract")

unfoldable pub check_hard_gates : Gates → List Bytes → Result (Unit {0})
unfolding lookup
check_hard_gates gates [] = ok tt
check_hard_gates gates (g ∷ gs) = do
  reject_if (is_none (lookup g gates)) (message "missing hard gate")
  check_hard_gates gates gs

-- The first measurement with the name of the metric gives the ticks.
unfoldable pub primary_ticks : Metric → Bytes → List MeasurementDefinition → Result Bytes
unfolding measurement_number normalize_rational_score text_eq
primary_ticks m value [] = err (message "primary measurement is undeclared")
primary_ticks m value (d ∷ ds) =
    let rest = primary_ticks m value ds in
    let this = (do x ← measurement_number value d.kind; normalize_rational_score x m) in
    if text_eq d.name m.name then this else rest

unfoldable pub result_ticks : Metric → Option EvaluationContract → ValidatorResult → Result Bytes
unfolding primary_ticks normalize_score lookup text_eq
result_ticks m none r = normalize_score r.score m
result_ticks m (some e) r =
    let value = value_of (lookup m.name r.measurements) in
    do
      reject_if (not (text_eq r.score value)) (message "score differs from primary measurement")
      primary_ticks m value e.measurements

-- The checks of a result that is decoded; the answer is its ticks.
unfoldable pub check_result : Unicode → ValidatorResult → Manifest → Result Bytes
unfolding check_contract check_timing check_hard_gates result_ticks text_eq
check_result u r m = do
  reject_if
      (not (text_eq r.api_version m.api_version) || not (text_eq r.kind (text "ValidatorResult")))
      (message "unsupported result version/kind")
  check_contract m.api_version m.evaluation r
  check_timing u m.evaluation r
  reject_if (not (length r.gates == length m.hard_gates)) (message "missing or unknown hard gate")
  check_hard_gates r.gates m.hard_gates
  result_ticks m.metric m.evaluation r

unfoldable pub validate_result :
    Unicode → Json → Bytes → Manifest → Result (ValidatorResult × Bytes)
unfolding check_result
validate_result u json content m = do
  reject_if (ltb 65536 (length content)) (message "result exceeds 64 KiB")
  r ← json.decode_strict content
  ticks ← check_result u r m
  ok (r, ticks)

abbrev pub any_failed : Gates → Bool
any_failed [] = false
any_failed ((name, passed) ∷ rest) = not passed || any_failed rest

abbrev pub is_inconclusive : Option TimingEvidence → Bool
is_inconclusive none = false
is_inconclusive (some t) = text_eq t.summary.outcome (text "inconclusive")

unfoldable pub validator_outcome : ValidatorResult → Bytes
unfolding text_eq
validator_outcome r =
    if any_failed r.gates
    then text "hard_gate_failed"
    else if is_inconclusive r.timing
    then text "measurement_inconclusive"
    else text "valid"
