-- ===== src/Results/Ranked.antt =====
-- What a validated result and an accepted run say of the ticks that rank them.
use science_ladder.Base.{
  ◌≡◌, inl, inr, refl, sym, ap, ◌∙◌, Bool, true, false, ◌&&◌, ◌||◌, not, Option, none, some, List,
  arith, ◌==◌, Bool-cases, or_none, In, Bytes, text, text_eq, text_eq→eq, length, ok, reject_if-ok,
  >>=-eq-ok, was_true, if_true, if_false, passed_guard, passed_check,
}
use science_ladder.Metric.{Metric}
use science_ladder.Score.{normalize_rational_score}
use science_ladder.Decimal.{Rat}
use science_ladder.Artifacts.{Unicode}
use science_ladder.Evaluation.{MeasurementDefinition, measurement_number}
use science_ladder.Evaluation.Values.{Values}
use science_ladder.Manifest.{Manifest}
use science_ladder.Results.{
  ValidatorResult, Json, validate_result, RunReceipt, validator_outcome, any_failed,
  is_inconclusive,
}
use science_ladder.Results.Evidence.{
  is_measured, compare_gates, check_run_evidence, run_evidence, validate_run_measurement_evidence,
}
use science_ladder.Timing.{same_bool}
use science_ladder.Manifest.Profile.{is_v2}

-- The ticks are those of the declared primary measurement, rounded against the solver; the score is
-- the value that is reported for it.
pub IsRanked : Metric → List MeasurementDefinition → Values → Bytes → Bytes → Type 0
IsRanked m ds values score ticks =
    (d : MeasurementDefinition) × (x : Rat) × In d ds
    × (d.name ≡ m.name)
    × In (m.name, score) values
    × (measurement_number score d.kind ≡ ok x)
    × (normalize_rational_score x m ≡ ok ticks)

passed_outcome :
    (r : ValidatorResult)
    → validator_outcome r ≡ text "valid"
    → (any_failed r.gates ≡ false) × (is_inconclusive r.timing ≡ false)
unfolding validator_outcome
passed_outcome r h = elim (Bool-cases (any_failed r.gates)) [
  | inl failed ↦ absurd (word (if_true _ _ _ failed h))
  | inr passed ↦ elim (Bool-cases (is_inconclusive r.timing)) [
    | inl wide ↦ absurd (word' (if_true _ _ _ wide (if_false _ _ _ passed h)))
    | inr narrow ↦ (passed, narrow)
  ]
]
  where
    word : {A : Type 0} → text "hard_gate_failed" ≡ text "valid" → A
    word e = cc

    word' : {A : Type 0} → text "measurement_inconclusive" ≡ text "valid" → A
    word' e = cc

run_checked :
    (u : Unicode) (json : Json) (run : RunReceipt) (typed : ValidatorResult) (m : Manifest)
    → check_run_evidence u json run typed m ≡ ok tt
    → (content : Bytes) × (r : ValidatorResult) × (json.marshal typed ≡ ok content)
      × (validate_result u json content m ≡ ok (r, run.score_ticks))
      × (validator_outcome r ≡ run.outcome)
unfolding check_run_evidence
run_checked u json run typed m h =
    let (content, written, h1) = >>=-eq-ok (json.marshal typed) _ h in
    let (p, read, h2) = >>=-eq-ok (validate_result u json content m) _ h1 in
    let (same, h3) =
      passed_guard (not (text_eq p.1 run.score_ticks) || not (length p.0.gates == length run.gates))
        _ h2 in
    let (_, h4) = passed_check (compare_gates run.gates p.0.gates) h3 in
    let differs =
      reject_if-ok
        (not (same_bool (any_failed p.0.gates) (text_eq run.outcome (text "hard_gate_failed")))
          || not (text_eq (validator_outcome p.0) run.outcome))
        _ h4 in
    let ticks = text_eq→eq p.1 run.score_ticks (was_true _ (or_none _ _ same).0) in
    (
      content,
      p.0,
      written,
      read ∙ ap (λ (t : Bytes). ok (p.0, t)) ticks,
      text_eq→eq (validator_outcome p.0) run.outcome (was_true _ (or_none _ _ differs).1),
    )

evidence_checked :
    (u : Unicode) (json : Json) (run : RunReceipt) (m : Manifest) (found : Option ValidatorResult)
    → is_v2 m.api_version ≡ true
    → is_measured run.outcome ≡ true
    → run_evidence u json run found m ≡ ok tt
    → (typed : ValidatorResult) × (found ≡ some typed)
      × (check_run_evidence u json run typed m ≡ ok tt)
unfolding run_evidence
evidence_checked u json run m none v2 measured h =
    absurd (cc (sym (reject_if-ok _ _ h) ∙ both _ _ v2 measured))
  where
    both : (a b : Bool) → a ≡ true → b ≡ true → a && b ≡ true
    both a b e g = ground arith
evidence_checked u json run m (some typed) v2 measured h =
    (typed, refl, if_true _ _ _ measured (if_false _ _ _ (ap not v2) h))

-- A run with the outcome `valid` under a manifest of version 2 is accepted only with a typed result
-- whose validation gives the very ticks that the receipt claims, and in which no hard gate failed.
pub validate_run_measurement_evidence_lem :
    (u : Unicode) (json : Json) (run : RunReceipt) (m : Manifest)
    → is_v2 m.api_version ≡ true
    → run.outcome ≡ text "valid"
    → validate_run_measurement_evidence u json run m ≡ ok tt
    → (typed : ValidatorResult) × (content : Bytes) × (r : ValidatorResult) × (run.validator_result
        ≡ some typed)
      × (json.marshal typed ≡ ok content)
      × (validate_result u json content m ≡ ok (r, run.score_ticks))
      × (any_failed r.gates ≡ false)
unfolding validate_run_measurement_evidence
validate_run_measurement_evidence_lem u json run m v2 valid h =
    let measured = ap (λ (o : Bytes). is_measured o) valid in
    let (typed, found, good) = evidence_checked u json run m run.validator_result v2 measured h in
    let (content, r, written, read, outcome) = run_checked u json run typed m good in
    (typed, content, r, found, written, read, (passed_outcome r (outcome ∙ valid)).0)
