-- ===== src/Evaluation/Values/Total.antt =====
-- Predicates that are accepted can always be compared: no number is missing when it is used.
use science_ladder.Base.{
  ◌≡◌, inl, inr, refl, Bool, true, false, List, [], ◌∷◌, arith, if◌then◌else◌, Bool-cases, first,
  Result-cases, text_eq, Result, ok,
}
use science_ladder.Decimal.{Rat}
use science_ladder.Evaluation.{MeasurementDefinition, measurement_number}
use science_ladder.Evaluation.Contract.{EvaluationContract}
use science_ladder.Evaluation.Values.{
  Values, MeasurementPredicate, check_values, validate_values, find_measurement, check_predicates,
  validate_predicates, is_violated, meets_predicate, meets_all, meets_predicates,
}
use science_ladder.Evaluation.Values.Predicates.{values_checked, values_read}

-- The answer is a Boolean value, not an error.
abbrev Answers : Result Bool → Type 0
Answers r = (b : Bool) × (r ≡ ok b)

found_rest :
    (p : MeasurementPredicate) (found : Bool) (d : MeasurementDefinition)
    (ds : List MeasurementDefinition) {k : Bool}
    → find_measurement p found (d ∷ ds) ≡ ok k
    → (next : Bool) × (find_measurement p next ds ≡ ok k)
unfolding find_measurement
found_rest p found d ds h = elim (Bool-cases (text_eq d.name p.measurement)) [
  | inl e ↦ (true, ground (arith, e, h))
  | inr e ↦ (found, ground (arith, e, h))
]

found_number :
    (p : MeasurementPredicate) (found : Bool) (d : MeasurementDefinition)
    (ds : List MeasurementDefinition) {k : Bool}
    → find_measurement p found (d ∷ ds) ≡ ok k
    → text_eq d.name p.measurement ≡ true
    → (y : Rat) × (measurement_number p.value d.kind ≡ ok y)
unfolding find_measurement
found_number p found d ds h named = elim (Result-cases (measurement_number p.value d.kind)) [
  | inl r ↦ r
  | inr e ↦ absurd (let a = e.1 in ground (arith, a, h, named))
]

decide : (b : Bool) {rest : Result Bool} → Answers rest → Answers (if b then ok false else rest)
decide true r = (false, refl)
decide false r = r

predicate-Answers :
    (values : Values) (p : MeasurementPredicate) (found : Bool) (ds : List MeasurementDefinition)
    {k : Bool}
    → check_values values ds ≡ ok tt
    → find_measurement p found ds ≡ ok k
    → Answers (meets_predicate values p ds)
unfolding meets_predicate check_values
predicate-Answers values p found [] c h = (true, refl)
predicate-Answers values p found (d ∷ ds) c h =
    let (next, later_found) = found_rest p found d ds h in
    let rest = predicate-Answers values p next ds (ground arith) later_found in
    elim (Bool-cases (text_eq d.name p.measurement)) [
      | inl e ↦
          let (v, x, look, num) = values_read values (d ∷ ds) d c first in
          let (y, bound) = found_number p found d ds h e in
          rw (e, look, num, bound) (decide (is_violated p.operator x y) rest)
      | inr e ↦ rw e rest
    ]

all-Answers :
    (values : Values) (ps : List MeasurementPredicate) (ds : List MeasurementDefinition)
    → check_values values ds ≡ ok tt
    → check_predicates ds ps ≡ ok tt
    → Answers (meets_all values ds ps)
unfolding meets_all check_predicates
all-Answers values [] ds c h = (true, refl)
all-Answers values (p ∷ ps) ds c h = elim (Result-cases (find_measurement p false ds)) [
  | inl r ↦
      let found = r.1 in
      let (this, e) = predicate-Answers values p false ds c found in
      let (rest, g) = all-Answers values ps ds c (ground (arith, found, h)) in
      rw (e, g) (if_answers this rest)
  | inr e ↦ absurd (let a = e.1 in ground (arith, a, h))
]
  where
    if_answers : (b c : Bool) → Answers (if b then ok c else ok false)
    if_answers true c = (c, refl)
    if_answers false c = (false, refl)

-- Where the values and the predicates are accepted, the comparison ends with a yes or a no: the
-- numbers whose errors the code drops are all there.
pub meets_predicates_total :
    (values : Values) (ps : List MeasurementPredicate) (e : EvaluationContract)
    → validate_values values e ≡ ok tt
    → validate_predicates ps e ≡ ok tt
    → (b : Bool) × (meets_predicates values ps e ≡ ok b)
unfolding meets_predicates validate_predicates
meets_predicates_total values ps e v q =
    let (b, h) =
      all-Answers values ps e.measurements (values_checked values e v) (ground (arith, q)) in
    (b, rw (v, q, h) refl)
