-- ===== src/Results/Achieved.antt =====
-- What a confirmed achievement rests on.
use science_ladder.Base.{
  ◌≡◌, ◌≢◌, inl, inr, refl, sym, ap, ◌∙◌, Bool, true, false, ◌||◌, Option, none, some, List, [],
  ◌∷◌, if◌then◌else◌, Bool-cases, or_none, Bytes, text, is_empty, text_eq, text_eq→eq, text_eq_refl,
  Result, ok, err, fault, >>=-eq-ok, if_true, if_false, passed_guard, All,
}
use science_ladder.Artifacts.{Unicode}
use science_ladder.Evaluation.Contract.{EvaluationContract}
use science_ladder.Evaluation.Values.{MeasurementPredicate, meets_predicates}
use science_ladder.Evaluation.Values.Predicates.{AllMet, meets_predicates-AllMet}
use science_ladder.Manifest.{Manifest, Milestone}
use science_ladder.Results.{ValidatorResult, RunReceipt, Json}
use science_ladder.Results.Evidence.{
  validate_run_measurement_evidence, typed_result, check_runs, achieved_by, confirmed_achievement,
}

-- A run shows the predicates: its outcome is valid, its evidence is accepted, and the measurements of
-- its result meet every predicate.
pub Shows :
    Unicode → Json → Manifest → EvaluationContract → List MeasurementPredicate → RunReceipt → Type 0
Shows u json m e requires run =
    (typed : ValidatorResult) × (run.validator_result ≡ some typed)
    × (run.outcome ≡ text "valid")
    × (validate_run_measurement_evidence u json run m ≡ ok tt)
    × AllMet typed.measurements requires e.measurements

-- Two runs of different jobs each show the predicates.
abbrev pub ShownTwice :
    Unicode → Json → Manifest → EvaluationContract → Milestone → List RunReceipt → Type 0
ShownTwice u json m e a runs =
    (x : RunReceipt) × (y : RunReceipt) × (runs ≡ x ∷ y ∷ [])
    × (x.job_id ≢ y.job_id)
    × Shows u json m e a.requires x
    × Shows u json m e a.requires y

typed_some :
    (run : RunReceipt) {typed : ValidatorResult}
    → typed_result run ≡ ok typed
    → run.validator_result ≡ some typed
typed_some run h = of_answer run.validator_result h
  where
    of_answer :
        (r : Option ValidatorResult) {typed : ValidatorResult}
        → elim r as (λ _. Result ValidatorResult) [ none ↦ err fault | some r ↦ ok r ] ≡ ok typed
        → r ≡ some typed
    of_answer none h = cc
    of_answer (some r) h = cc

module _ (u : Unicode) (json : Json) (m : Manifest) (e : EvaluationContract)
    (requires : List MeasurementPredicate) where
  runs_show :
      (runs : List RunReceipt)
      → check_runs u json m e requires runs ≡ ok true
      → All (Shows u json m e requires) runs
  unfolding Shows check_runs
  runs_show [] h = tt
  runs_show (run ∷ runs) h = elim (Bool-cases (text_eq run.outcome (text "valid"))) [
    | inl valid ↦
        let (_, evidence, h1) =
          >>=-eq-ok (validate_run_measurement_evidence u json run m) _ (if_true _ _ _ valid h) in
        let (typed, found, h2) = >>=-eq-ok (typed_result run) _ h1 in
        let (meets, met, h3) = >>=-eq-ok (meets_predicates typed.measurements requires e) _ h2 in
        let (all_met, more) = went_on meets h3 in
        (
          (
            typed,
            typed_some run found,
            text_eq→eq run.outcome (text "valid") valid,
            evidence,
            meets_predicates-AllMet typed.measurements requires e (met ∙ ap ok all_met),
          ),
          runs_show runs more,
        )
    | inr other ↦ absurd (no (if_false _ _ _ other h))
  ]
    where
      no : {A : Type 0} → ok false ≡ ok true → A
      no e = cc

      went_on :
          {rest : Result Bool} (meets : Bool)
          → (if meets then rest else ok false) ≡ ok true
          → (meets ≡ true) × (rest ≡ ok true)
      went_on true h = (refl, h)
      went_on false h = cc

confirmed :
    (u : Unicode) (json : Json) (m : Manifest) (e : EvaluationContract) (a : Milestone)
    (runs : List RunReceipt)
    → achieved_by u json m (some e) a runs ≡ ok true
    → ShownTwice u json m e a runs
unfolding achieved_by
confirmed u json m e a [] h = cc
confirmed u json m e a (x ∷ []) h = cc
confirmed u json m e a (x ∷ y ∷ z ∷ runs) h = cc
confirmed u json m e a (x ∷ y ∷ []) h =
    let (apart, h1) = passed_guard (is_empty x.job_id || text_eq x.job_id y.job_id) _ h in
    let (_, other) = or_none (is_empty x.job_id) (text_eq x.job_id y.job_id) apart in
    let shown = runs_show u json m e a.requires (x ∷ y ∷ []) h1 in
    (x, y, refl, different x.job_id y.job_id other, shown.0, shown.1.0)
  where
    different : (s t : Bytes) → text_eq s t ≡ false → s ≢ t
    different s t h same =
        absurd (cc (sym h ∙ ap (λ (v : Bytes). text_eq s v) (sym same) ∙ text_eq_refl s))

-- A milestone with predicates is confirmed by two runs of different jobs, and each of them on its own
-- has a valid outcome, accepted evidence, and measurements that meet every predicate exactly.
pub confirmed_achievement-Shows :
    (u : Unicode) (json : Json) (m : Manifest) (e : EvaluationContract) (a : Milestone)
    (runs : List RunReceipt)
    → m.evaluation ≡ some e
    → is_empty a.requires ≡ false
    → confirmed_achievement u json m a runs ≡ ok true
    → ShownTwice u json m e a runs
unfolding confirmed_achievement
confirmed_achievement-Shows u json m e a runs locked full h = confirmed u json m e a runs (
    ap (λ (c : Option EvaluationContract). achieved_by u json m c a runs) (sym locked)
    ∙ (sym (ap (λ (b : Bool). if b then ok true else achieved_by u json m m.evaluation a runs) full)
        ∙ h))
