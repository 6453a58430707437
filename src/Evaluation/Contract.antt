-- ===== src/Evaluation/Contract.antt =====
-- pkg/protocol/evaluation.go: `ValidateEvaluation`.
use science_ladder.Base.{
  Bool, true, false, ◌&&◌, ◌||◌, not, Option, none, some, List, [], ◌∷◌, ltb, if◌then◌else◌, Bytes,
  text, is_empty, is_some, is_in, text_eq, length, Result, ok, err, message, ◌>>◌, reject_if,
}
use science_ladder.Base.Int.{ℤ, pos, ltb_ℤ, scale, ◌+ℤ◌, ◌-ℤ◌}
use science_ladder.Metric.{Metric, is_maximize}
use science_ladder.Score.{normalize_score}
use science_ladder.Lease.{wrap}
use science_ladder.Artifacts.{Unicode}
use science_ladder.Evaluation.{
  MetricRationale, MeasurementDefinition, ExecutorRequirements, is_identifier,
}
use science_ladder.Evaluation.Rationale.{validate_metric_rationale}
use science_ladder.Evaluation.Executor.{validate_executor}
use science_ladder.Evaluation.Measured.{validate_measurements, is_primary}
use science_ladder.Evaluation.Stage.{validate_stage_argv}
use science_ladder.Evaluation.Proof.{
  StageBudget, CandidateProgram, ProofContract, scratch_bytes, validate_build_products,
  validate_proof_contract,
}
use science_ladder.Evaluation.Assets.{EvaluationAsset, check_assets}
use science_ladder.Timing.Policy.{MeasurementPolicy, validate_measurement_policy}

pub record Resources : Type 0 where
  pub class : Bytes
  pub vcpu : ℤ
  pub memory_mb : ℤ
  pub timeout_seconds : ℤ
  pub max_output_bytes : ℤ

pub record EvaluationContract : Type 0 where
  pub version : Bytes
  pub mode : Bytes
  pub comparison_id : Bytes
  pub executor : ExecutorRequirements
  pub measurements : List MeasurementDefinition
  pub rationale : MetricRationale
  pub program : Option CandidateProgram
  pub measurement : Option MeasurementPolicy
  pub proof : Option ProofContract
  pub assets : List EvaluationAsset

abbrev pub evaluation_version : Bytes
evaluation_version = text "science-ladder/evaluation/v1"

abbrev pub is_mode : Bytes → EvaluationContract → Bool
is_mode m e = text_eq e.mode m

abbrev pub is_known_mode : EvaluationContract → Bool
is_known_mode e =
    is_mode (text "artifact") e
    || is_mode (text "proof") e
    || is_mode (text "program") e
    || is_mode (text "performance") e

abbrev pub outside_ℤ : ℤ → ℤ → ℤ → Bool
outside_ℤ z low high = ltb_ℤ z low || ltb_ℤ high z

-- One stage of a program.
unfoldable pub check_budget : CandidateProgram → Resources → StageBudget → Result (Unit {0})
unfolding wrap scale ◌-ℤ◌
check_budget p r b = do
  reject_if (outside_ℤ b.max_file_bytes (pos 0) (scratch_bytes p))
      (message "file budget exceeds bounded candidate work space")
  reject_if
      (outside_ℤ b.timeout_seconds (pos 1) r.timeout_seconds
        || outside_ℤ b.memory_mb (pos 32) (wrap (r.memory_mb -ℤ pos 256))
        || outside_ℤ b.max_output_bytes (pos 1) (pos 1073741824)
        || outside_ℤ b.max_processes (pos 1) (pos 256))
      (message "stage budget exceeds session envelope")

abbrev pub minimum_runs : EvaluationContract → CandidateProgram → ℤ
minimum_runs e p = if is_mode (text "proof") e && not (is_empty p.products) then pos 0 else pos 1

-- The checks of a program that is there.
unfoldable pub check_program :
    Unicode → EvaluationContract → Resources → CandidateProgram → Result (Unit {0})
unfolding validate_stage_argv validate_build_products check_budget text_eq
check_program u e r p = do
  validate_stage_argv p.build
  validate_stage_argv p.run
  reject_if
      (outside_ℤ p.max_runs (pos 1) (pos 10000)
        || outside_ℤ p.min_runs (minimum_runs e p) p.max_runs
        || outside_ℤ p.scratch_mb (pos 16) r.memory_mb)
      (message "invalid candidate run count or scratch budget")
  reject_if (not (is_empty p.products) && not (is_in (text "sealed-products") e.executor.features))
      (message "build products require an enrolled sealed-products capability")
  validate_build_products u p
  check_budget p r p.build_budget
  check_budget p r p.run_budget

abbrev pub needs_program : EvaluationContract → Bool
needs_program e = is_mode (text "program") e || is_mode (text "performance") e

abbrev pub may_have_program : EvaluationContract → Bool
may_have_program e = needs_program e || is_mode (text "proof") e

unfoldable pub validate_program :
    Unicode → EvaluationContract → Resources → Option CandidateProgram → Result (Unit {0})
unfolding check_program text_eq
validate_program u e r none =
    reject_if (needs_program e)
      (message "program evaluation requires an isolated candidate and frozen program contract")
validate_program u e r (some p) = do
  reject_if (may_have_program e && not (is_in (text "isolated-candidate") e.executor.features))
      (message "program evaluation requires an isolated candidate and frozen program contract")
  reject_if (not (may_have_program e))
      (message "artifact mode cannot silently execute submitted programs")
  check_program u e r p

abbrev pub is_baseline_one : Metric → Result Bytes → Bool
is_baseline_one m (err why) = false
is_baseline_one m (ok ticks) = text_eq ticks m.baseline_ticks

abbrev pub primaries_rational : List MeasurementDefinition → Bool
primaries_rational [] = true
primaries_rational (d ∷ ds) =
    not (is_primary d && not (text_eq d.kind (text "rational"))) && primaries_rational ds

-- `e.Program.MaxRuns`; without a program the code has ended before.
abbrev pub runs_of : Option CandidateProgram → ℤ
runs_of none = pos 0
runs_of (some p) = p.max_runs

-- Performance mode with a timing policy.
unfoldable pub check_performance :
    Unicode → EvaluationContract → Metric → MeasurementPolicy → Result (Unit {0})
unfolding validate_measurement_policy normalize_score is_maximize scale ◌+ℤ◌ text_eq
check_performance u e m p = do
  reject_if
      (not (is_in (text "trusted-timing") e.executor.features)
        || is_empty e.executor.hardware_class)
      (message "performance evaluation requires locked hardware and trusted measurement policy")
  reject_if (not (is_maximize m.direction)) (message "paired speedup must be maximized")
  reject_if (not (is_baseline_one m (normalize_score (text "1") m)))
      (message "paired speedup baseline must represent a ratio of exactly one")
  reject_if (not (primaries_rational e.measurements))
      (message "paired timing primary is the exact rational lower confidence bound")
  validate_measurement_policy u p
  reject_if (ltb_ℤ (runs_of e.program) (scale (p.warmups +ℤ p.repetitions) 2))
      (message "candidate run budget cannot complete paired measurement schedule")

unfoldable pub validate_performance :
    Unicode → EvaluationContract → Metric → Option MeasurementPolicy → Result (Unit {0})
unfolding check_performance text_eq
validate_performance u e m none =
    reject_if (is_mode (text "performance") e)
      (message "performance evaluation requires locked hardware and trusted measurement policy")
validate_performance u e m (some p) =
    if is_mode (text "performance") e
    then check_performance u e m p
    else err (message "timing policy requires performance mode")

unfoldable pub validate_evaluation :
    Unicode → EvaluationContract → Metric → List Bytes → Resources → Result (Unit {0})
unfolding is_identifier validate_metric_rationale validate_executor validate_measurements
    validate_program validate_performance validate_proof_contract check_assets text_eq
validate_evaluation u e m urls r = do
  reject_if (not (text_eq e.version evaluation_version) || not (is_identifier e.comparison_id))
      (message "unsupported evaluation version or comparison identity")
  reject_if (not (is_known_mode e)) (message "unknown evaluation mode")
  validate_metric_rationale u.trim_space e.rationale urls
  validate_executor e.executor
  validate_measurements u.trim_space m.name m.unit e.measurements
  validate_program u e r e.program
  validate_performance u e m e.measurement
  reject_if
      ((is_mode (text "proof") e || is_some e.proof)
        && not (is_in (text "native-proof-checker") e.executor.features))
      (message "proof evaluation requires a proof-checker capability")
  reject_if
      (is_mode (text "performance") e
        && is_some e.proof
        && not (is_in (text "proof-timing-composition") e.executor.features))
      (message "proof-checked timing requires an enrolled composed pipeline")
  validate_proof_contract u e.mode e.proof e.program
  reject_if (ltb 16 (length e.assets)) (message "too many immutable assets")
  check_assets e.executor.features [] e.assets
