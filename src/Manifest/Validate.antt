-- ===== src/Manifest/Validate.antt =====
-- pkg/protocol/validate.go: `ValidateManifest`.
use science_ladder.Base.{
  Bool, true, false, ◌&&◌, ◌||◌, not, Option, none, some, List, [], ◌∷◌, map, ltb, ◌==◌,
  if◌then◌else◌, Bytes, text, is_empty, is_none, text_eq, length, Result, ok, err, message, ◌>>=◌,
  ◌>>◌, reject_if,
}
use science_ladder.Base.Int.{pos, ltb_ℤ, eqb_ℤ}
use science_ladder.Lease.{manifest_v2}
use science_ladder.Artifacts.{Unicode}
use science_ladder.Artifacts.Contract.{validate_submission_contract, is_lower_or_digit}
use science_ladder.Evaluation.{is_identifier}
use science_ladder.Evaluation.Contract.{EvaluationContract, validate_evaluation}
use science_ladder.Evaluation.Values.{validate_predicates}
use science_ladder.Manifest.{
  Source, Milestone, Manifest, manifest_v1, manifest_verification_policy, has_mode,
}
use science_ladder.Manifest.Sources.{Url, validate_sources}
use science_ladder.Manifest.Ranking.{validate_metric, validate_milestones, validate_gates}
use science_ladder.Manifest.Profile.{validate_profile, validate_suite, validate_resources, is_v2}
use science_ladder.Manifest.Fixtures.{validate_fixtures}

abbrev pub is_known_version : Bytes → Bool
is_known_version v = text_eq v manifest_v1 || text_eq v manifest_v2

-- The identity of a manifest.
unfoldable pub bad_identity : Manifest → Bool
unfolding is_identifier text_eq
bad_identity m =
    not (is_known_version m.api_version)
    || not (text_eq m.kind (text "ChallengeManifest"))
    || not (is_identifier m.id)
    || is_empty m.producer
    || eqb_ℤ m.created_at (pos 0)

abbrev pub has_requirements : List Milestone → Bool
has_requirements [] = false
has_requirements (a ∷ rest) = not (is_empty a.requires) || has_requirements rest

unfoldable pub check_requirements : EvaluationContract → List Milestone → Result (Unit {0})
unfolding validate_predicates
check_requirements e [] = ok tt
check_requirements e (a ∷ rest) = do validate_predicates a.requires e; check_requirements e rest

abbrev pub url_of : Source → Bytes
url_of s = s.url

unfoldable pub validate_v1 : Manifest → Option EvaluationContract → Result (Unit {0})
validate_v1 m e = do
  reject_if (not (is_empty m.submission.format))
      (message "versioned source submissions require a v2 manifest")
  reject_if (not (is_none e)) (message "evaluation extensions require an explicit v2 manifest")
  reject_if (has_requirements m.milestones)
      (message "achievement predicates require an explicit v2 manifest")

unfoldable pub validate_v2 : Unicode → Manifest → Option EvaluationContract → Result (Unit {0})
unfolding validate_evaluation check_requirements
validate_v2 u m none =
    err (message "v2 requires a frozen evaluation contract and scientific metric rationale")
validate_v2 u m (some e) = do
  validate_evaluation u e m.metric (map url_of m.evidence) m.resources
  check_requirements e m.milestones

-- `^[a-z0-9]+(?:-[a-z0-9]+)*$`; `fresh` says that a letter or digit must follow.
unfoldable pub is_slug : Bool → Bytes → Bool
is_slug fresh [] = not fresh
is_slug fresh (c ∷ cs) =
    let inside = is_slug false cs in
    let next = is_slug true cs in
    if is_lower_or_digit c then inside else c == b'-' && not fresh && next

unfoldable pub bad_text : Manifest → Bool
unfolding is_slug
bad_text m =
    ltb 100 (length m.slug)
    || not (is_slug true m.slug)
    || ltb (length m.title) 5
    || ltb 160 (length m.title)
    || is_empty m.summary
    || is_empty m.scientific_question
    || is_empty m.impact

unfoldable pub is_classified : Bytes → Bool
unfolding text_eq
is_classified c = text_eq c (text "low-risk-computational") || text_eq c (text "review-required")

unfoldable pub validate_version : Unicode → Manifest → Result (Unit {0})
unfolding validate_v1 validate_v2 text_eq
validate_version u m =
    if text_eq m.api_version manifest_v1
    then validate_v1 m m.evaluation
    else validate_v2 u m m.evaluation

-- The science of a manifest: its question, evidence, class and deadline.
unfoldable pub validate_science : (Bytes → Option Url) → Unicode → Manifest → Result (Unit {0})
unfolding bad_text validate_sources is_classified text_eq
validate_science parse_url u m = do
  reject_if (bad_text m) (message "scientific question, impact, title, summary and slug required")
  validate_sources parse_url u.trim_space m.evidence
  reject_if (is_empty m.limitations) (message "explicit scientific limitations required")
  reject_if (not (text_eq m.economic_mode (text "none")))
      (message "only economicMode none is supported")
  reject_if (not (is_classified m.safety_classification))
      (message "unsupported safety classification")
  reject_if (not (ltb_ℤ m.created_at m.deadline)) (message "deadline must follow creation")

-- What a submission is ranked by.
unfoldable pub validate_ranking : Manifest → Result (Unit {0})
unfolding validate_metric validate_milestones validate_gates
validate_ranking m = do
  (baseline, minimum) ← validate_metric m.metric
  validate_milestones m.metric baseline minimum m.milestones
  validate_gates m.hard_gates

-- How a submission is run.
unfoldable pub validate_execution : Unicode → Manifest → Result (Unit {0})
unfolding validate_submission_contract validate_profile validate_suite validate_resources
    validate_fixtures text_eq
validate_execution u m = do
  validate_submission_contract u m.submission
  validate_profile u m.api_version m.submission.format m.evaluation m.validator
  validate_suite u m.suite
  validate_resources (is_v2 m.api_version) (length m.fixtures) m.resources
  validate_fixtures u (has_mode (text "performance") m.evaluation) m.metric.baseline_ticks
      m.fixtures

abbrev pub is_policy : Bytes → Bool
is_policy p = text_eq p (text "platform") || text_eq p (text "independent")

unfoldable pub validate_manifest : (Bytes → Option Url) → Unicode → Manifest → Result (Unit {0})
unfolding bad_identity validate_version validate_science validate_ranking validate_execution text_eq
validate_manifest parse_url u m = do
  reject_if (not (is_policy (manifest_verification_policy m.verification_policy)))
      (message "verification policy must be platform or independent")
  reject_if (bad_identity m) (message "invalid manifest identity/version")
  validate_version u m
  validate_science parse_url u m
  validate_ranking m
  validate_execution u m
