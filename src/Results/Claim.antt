-- ===== src/Results/Claim.antt =====
-- pkg/protocol/frontier_claim.go: `AdmissionMode` and `FrontierClaim.Validate`.
use science_ladder.Base.{
  Bool, ◌||◌, not, Option, none, some, ltb, if◌then◌else◌, Bytes, text, is_empty, is_none, text_eq,
  length, Result, ok, err, message, ◌>>=◌, ◌>>◌, reject_if,
}
use science_ladder.Base.Int.{ℤ, ltb_ℤ}
use science_ladder.Ticks.{parse_ticks}
use science_ladder.Metric.{Metric}
use science_ladder.Score.{require}
use science_ladder.Digests.{valid_digest}
use science_ladder.Artifacts.{Unicode}
use science_ladder.Manifest.{Manifest, has_mode}
use science_ladder.Results.{ValidatorResult, Json, validate_result, validator_outcome}

pub record LocalQualification : Type 0 where
  pub checks_passed : Bool
  pub report_digest : Bytes
  pub estimated_score_ticks : Bytes
  pub reason : Bytes

pub record FrontierClaim : Type 0 where
  pub api_version : Bytes
  pub version_id : Bytes
  pub lock_digest : Bytes
  pub artifact_digest : Bytes
  pub mode : Bytes
  pub answer : Option ValidatorResult  -- result
  pub qualification : Option LocalQualification

abbrev pub qualification_mode : Bytes
qualification_mode = text "qualification"

unfoldable pub admission_mode : Manifest → Bytes
unfolding text_eq
admission_mode m =
    if text_eq m.suite.visibility (text "hidden") || has_mode (text "performance") m.evaluation
    then qualification_mode
    else text "frontier"

-- One bound of the domain; `outside` compares the estimate with it.
abbrev pub check_estimate : Bytes → (ℤ → Bool) → Result (Unit {0})
check_estimate bound outside =
    if is_empty bound
    then ok tt
    else do require (parse_ticks bound) outside (message "estimate outside metric domain"); ok tt

abbrev pub bad_qualification : LocalQualification → Bool
bad_qualification q =
    not q.checks_passed
    || not (valid_digest q.report_digest)
    || ltb (length q.reason) 20
    || ltb 2000 (length q.reason)

unfoldable pub validate_qualification :
    Metric → Option ValidatorResult → Option LocalQualification → Result Bytes
unfolding valid_digest parse_ticks
validate_qualification m answer none =
    err (message "successful local qualification, report digest and measurement rationale required")
validate_qualification m answer (some q) = do
  reject_if (not (is_none answer) || bad_qualification q)
      (message "successful local qualification, report digest and measurement rationale required")
  x ← parse_ticks q.estimated_score_ticks
  check_estimate m.domain_min_ticks (λ v. ltb_ℤ x v)
  check_estimate m.domain_max_ticks (λ v. ltb_ℤ v x)
  ok q.estimated_score_ticks

unfoldable pub validate_frontier :
    Unicode → Json → Manifest → Option ValidatorResult → Option LocalQualification → Result Bytes
unfolding validate_result validator_outcome text_eq
validate_frontier u json m none q = err (message "local validator result required")
validate_frontier u json m (some answer) q = do
  reject_if (not (is_none q)) (message "local validator result required")
  content ← json.marshal answer
  (r, ticks) ← validate_result u json content m
  reject_if (not (text_eq (validator_outcome r) (text "valid")))
      (message "all local correctness gates must pass")
  ok ticks

unfoldable pub validate_claim : Unicode → Json → FrontierClaim → Manifest → Result Bytes
unfolding admission_mode validate_qualification validate_frontier valid_digest text_eq
validate_claim u json c m =
    let qualified = validate_qualification m.metric c.answer c.qualification in
    let ranked = validate_frontier u json m c.answer c.qualification in
    do
      reject_if
          (not (text_eq c.api_version (text "science-ladder/frontier-claim/v1"))
            || is_empty c.version_id
            || not (valid_digest c.lock_digest)
            || not (valid_digest c.artifact_digest)
            || not (text_eq c.mode (admission_mode m)))
          (message "claim version, digests or admission mode invalid")
      (if text_eq c.mode qualification_mode then qualified else ranked)
