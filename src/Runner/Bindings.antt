-- ===== src/Runner/Bindings.antt =====
-- internal/platform/runners.go: what `runnerResult` checks of a receipt before it stores it.
use science_ladder.Base.{
  ℕ, ◌+◌, Bool, true, false, ◌&&◌, ◌||◌, not, Option, none, some, List, [], ◌∷◌, ltb, ◌==◌,
  if◌then◌else◌, Bytes, text, is_empty, is_in, text_eq, length, Result, ok, err, refused, ◌>>◌,
  reject_if, is_ok, String,
}
use science_ladder.Ticks.{parse_ticks}
use science_ladder.Compare.{crosses}
use science_ladder.Signing.{lookup}
use science_ladder.Metric.{Metric, maximize, minimize}
use science_ladder.Manifest.{manifest_v1}
use science_ladder.Manifest.Validate.{is_policy}
use science_ladder.Results.{RunReceipt, Gates}
use science_ladder.Results.Evidence.{validate_run_measurement_evidence}
use science_ladder.Timing.{same_bool}
use science_ladder.Runner.{is_build, RunnerJob, Host, Env, job_verification_policy}

abbrev pub minute : ℕ
minute = 60000000000

-- The identity of a receipt, for a result that is sent to the job's path.
unfoldable pub bad_identity : Env → Host → Bytes → RunReceipt → Bool
unfolding text_eq
bad_identity env host path run =
    not (text_eq run.api_version manifest_v1)
    || not (text_eq run.kind (text "ValidationRunReceipt"))
    || ltb (env.now + minute) run.created_at
    || not (text_eq run.host_id host.id)
    || not (text_eq run.host_group host.group)
    || not run.official
    || not run.cleanup_attested
    || not (text_eq run.job_id path)

unfoldable pub bad_bindings : RunReceipt → RunnerJob → Bytes → Bool
unfolding text_eq
bad_bindings run job digest =
    not (is_policy (job_verification_policy job.verification_policy))
    || not (text_eq run.parent_job_digest job.parent_job_digest)
    || not (text_eq run.verification_policy job.verification_policy)
    || not (text_eq run.job_digest digest)
    || not (text_eq run.acceptance_receipt_digest job.acceptance_receipt_digest)
    || not (text_eq run.challenge_lock_digest job.challenge_lock_digest)
    || not (text_eq run.artifact_digest job.artifact_digest)
    || not (text_eq run.suite_digest job.suite_digest)
    || not (text_eq run.execution_profile_digest job.execution_profile_digest)
    || not (text_eq run.runner_epoch job.runner_epoch)
    || not (text_eq run.deployment_mode job.deployment_mode)
    || not (same_bool run.official_acceptance job.official_acceptance)

abbrev pub terminal : List Bytes
terminal =
    text "valid"
    ∷ text "hard_gate_failed"
    ∷ text "invalid_output"
    ∷ text "resource_limit"
    ∷ text "declared_timeout"
    ∷ text "nondeterministic"
    ∷ text "malicious"
    ∷ text "challenge_fault"
    ∷ text "measurement_inconclusive"
    ∷ []

abbrev pub is_true : Option Bool → Bool
is_true none = false
is_true (some b) = b

unfoldable pub all_passed : Gates → List Bytes → Bool
unfolding lookup
all_passed gates [] = true
all_passed gates (g ∷ gs) = is_true (lookup g gates) && all_passed gates gs

abbrev pub outside_domain : Bytes → Metric → Bool
outside_domain ticks m =
    (not (is_empty m.domain_min_ticks) && not (crosses ticks m.domain_min_ticks maximize))
    || (not (is_empty m.domain_max_ticks) && not (crosses ticks m.domain_max_ticks minimize))

-- A valid result of a submission or its confirmation.
unfoldable pub check_valid : RunReceipt → RunnerJob → Result (Unit {0})
unfolding all_passed parse_ticks crosses
check_valid run job = do
  reject_if (not (length run.gates == length job.manifest.hard_gates)) (refused 422 "gates_invalid")
  reject_if (not (all_passed run.gates job.manifest.hard_gates)) (refused 422 "gates_invalid")
  reject_if (not (is_ok (parse_ticks run.score_ticks))) (refused 422 "score_invalid")
  reject_if (outside_domain run.score_ticks job.manifest.metric) (refused 422 "score_domain")

abbrev pub as_refusal : String → Result (Unit {0}) → Result (Unit {0})
as_refusal code (ok _) = ok tt
as_refusal code (err _) = err (refused 422 code)

-- The evidence of a submission or its confirmation.
unfoldable pub check_evidence : Env → RunReceipt → RunnerJob → Result (Unit {0})
unfolding check_valid validate_run_measurement_evidence text_eq
check_evidence env run job =
    let valid = check_valid run job in
    do
      as_refusal "measurement_evidence_invalid"
          (validate_run_measurement_evidence env.unicode env.json run job.manifest)
      (if text_eq run.outcome (text "valid") then valid else ok tt)

unfoldable pub check_outcome : Env → RunReceipt → RunnerJob → Result (Unit {0})
unfolding check_evidence text_eq
check_outcome env run job =
    let evidence = check_evidence env run job in
    do
      reject_if (not (is_in run.outcome terminal)) (refused 422 "run_outcome_invalid")
      (if is_build job.purpose then ok tt else evidence)
