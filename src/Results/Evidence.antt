-- ===== src/Results/Evidence.antt =====
-- pkg/protocol/evaluation.go: `ValidateRunMeasurementEvidence` and `ConfirmedAchievement`.
use science_ladder.Base.{
  Bool, true, false, ◌&&◌, ◌||◌, not, Option, none, some, List, [], ◌∷◌, ◌==◌, if◌then◌else◌, Bytes,
  text, is_empty, text_eq, length, Result, ok, err, message, fault, ◌>>=◌, ◌>>◌, reject_if,
}
use science_ladder.Signing.{lookup}
use science_ladder.Artifacts.{Unicode}
use science_ladder.Timing.{same_bool}
use science_ladder.Evaluation.Contract.{EvaluationContract}
use science_ladder.Evaluation.Values.{MeasurementPredicate, meets_predicates}
use science_ladder.Manifest.{Manifest, Milestone}
use science_ladder.Manifest.Profile.{is_v2}
use science_ladder.Results.{
  Gates, ValidatorResult, RunReceipt, Json, validate_result, validator_outcome, any_failed,
}

abbrev pub is_measured : Bytes → Bool
is_measured o =
    text_eq o (text "valid")
    || text_eq o (text "hard_gate_failed")
    || text_eq o (text "measurement_inconclusive")

abbrev pub same_gate : Bool → Option Bool → Bool
same_gate value none = false
same_gate value (some outer) = same_bool outer value

-- The loop over the gates of the result; the gates of the receipt are `outer`.
unfoldable pub compare_gates : Gates → Gates → Result (Unit {0})
unfolding lookup
compare_gates outer [] = ok tt
compare_gates outer ((name, value) ∷ rest) = do
  reject_if (not (same_gate value (lookup name outer)))
      (message "run gate differs from typed evidence")
  compare_gates outer rest

-- The evidence of a run that carries a result.
unfoldable pub check_run_evidence :
    Unicode → Json → RunReceipt → ValidatorResult → Manifest → Result (Unit {0})
unfolding validate_result compare_gates validator_outcome text_eq
check_run_evidence u json run typed m = do
  content ← json.marshal typed
  (r, ticks) ← validate_result u json content m
  reject_if (not (text_eq ticks run.score_ticks) || not (length r.gates == length run.gates))
      (message "run score or gates differ from typed evidence")
  compare_gates run.gates r.gates
  reject_if
      (not (same_bool (any_failed r.gates) (text_eq run.outcome (text "hard_gate_failed")))
        || not (text_eq (validator_outcome r) run.outcome))
      (message "run outcome differs from measurement gates")

unfoldable pub run_evidence :
    Unicode → Json → RunReceipt → Option ValidatorResult → Manifest → Result (Unit {0})
unfolding check_run_evidence text_eq
run_evidence u json run none m =
    reject_if (is_v2 m.api_version && is_measured run.outcome)
      (message "v2 run is missing its typed measurement evidence")
run_evidence u json run (some typed) m =
    let checked = check_run_evidence u json run typed m in
    if not (is_v2 m.api_version)
    then err (message "legacy run contains unbound measurement evidence")
    else if is_measured run.outcome
    then checked
    else ok tt

unfoldable pub validate_run_measurement_evidence :
    Unicode → Json → RunReceipt → Manifest → Result (Unit {0})
unfolding run_evidence
validate_run_measurement_evidence u json run m = run_evidence u json run run.validator_result m

-- `run.ValidatorResult.Measurements`; without a result that is a nil dereference.
abbrev pub typed_result : RunReceipt → Result ValidatorResult
typed_result run = elim run.validator_result [ none ↦ err fault | some r ↦ ok r ]

-- The loop over the runs.
module _ (u : Unicode) (json : Json) (m : Manifest) (e : EvaluationContract)
    (requires : List MeasurementPredicate) where
  unfoldable pub check_runs : List RunReceipt → Result Bool
  unfolding validate_run_measurement_evidence meets_predicates text_eq
  check_runs [] = ok true
  check_runs (run ∷ runs) =
      let rest = check_runs runs in
      let this = (do
        validate_run_measurement_evidence u json run m
        typed ← typed_result run
        meets ← meets_predicates typed.measurements requires e
        (if meets then rest else ok false)) in
      if text_eq run.outcome (text "valid") then this else ok false

unfoldable pub achieved_by :
    Unicode
    → Json
    → Manifest
    → Option EvaluationContract
    → Milestone
    → List RunReceipt
    → Result Bool
unfolding check_runs text_eq
achieved_by u json m (some e) a (x ∷ y ∷ []) = do
  reject_if (is_empty x.job_id || text_eq x.job_id y.job_id)
      (message "achievement confirmation must be a different run")
  check_runs u json m e a.requires (x ∷ y ∷ [])
achieved_by u json m _ a _ = err (message "achievement lacks two complete measurement records")

unfoldable pub confirmed_achievement :
    Unicode → Json → Manifest → Milestone → List RunReceipt → Result Bool
unfolding achieved_by
confirmed_achievement u json m a runs =
    let answer = achieved_by u json m m.evaluation a runs in
    if is_empty a.requires then ok true else answer
