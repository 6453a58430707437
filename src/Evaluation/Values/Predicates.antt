-- ===== src/Evaluation/Values/Predicates.antt =====
-- What it means that a result meets the predicates of a milestone.
use science_ladder.Base.{
  ◌≡◌, ◌⊎◌, ◌↔◌, inl, inr, refl, true, false, Option, none, some, List, [], ◌∷◌, arith, Bool-cases,
  In, first, later, Result-cases, Bytes, text_eq, ok, All, text, text_eq→eq, not, message,
  passed_guard, >>=-eq-ok, was_true,
}
use science_ladder.Signing.{lookup}
use science_ladder.Base.Int.{scale, ◌≤ℤ◌}
use science_ladder.Decimal.{Rat}
use science_ladder.Evaluation.{MeasurementDefinition, measurement_number}
use science_ladder.Evaluation.Contract.{EvaluationContract}
use science_ladder.Evaluation.Values.{
  Values, MeasurementPredicate, check_value, check_values, validate_values, validate_predicates,
  is_violated, is_operator, find_measurement, check_predicates, meets_predicate, meets_all,
  meets_predicates,
}

-- One rational number is at most another: the fractions compared by cross multiplication.
abbrev pub IsAtMost : Rat → Rat → Type 0
IsAtMost x y = scale x.num y.den ≤ℤ scale y.num x.den

-- What an operator asks of the measured number and of the predicate's number.
abbrev pub Stands : Bytes → Rat → Rat → Type 0
Stands operator x y =
    ((operator ≡ text "eq") × IsAtMost x y × IsAtMost y x)
    ⊎ (((operator ≡ text "ge") × IsAtMost y x) ⊎ ((operator ≡ text "le") × IsAtMost x y))

Stands-cases :
    (operator : Bytes) (x y : Rat)
    → is_operator operator ≡ true
    → is_violated operator x y ≡ false
    → Stands operator x y
unfolding is_violated
Stands-cases operator x y known h = elim (Bool-cases (text_eq operator (text "eq"))) [
  | inl e ↦ inl (text_eq→eq operator (text "eq") e, ground (arith, e, h), ground (arith, e, h))
  | inr n ↦ elim (Bool-cases (text_eq operator (text "ge"))) [
    | inl e ↦ inr (inl (text_eq→eq operator (text "ge") e, ground (arith, e, h)))
    | inr k ↦
        let e : text_eq operator (text "le") ≡ true = ground (arith, n, k, known) in
        inr (inr (text_eq→eq operator (text "le") e, ground (arith, e, h)))
  ]
]

Stands-not_violated :
    (operator : Bytes) (x y : Rat) → Stands operator x y → is_violated operator x y ≡ false
unfolding is_violated text_eq
Stands-not_violated operator x y (inl (e, le, ge)) = rw e (ground (arith, le, ge))
Stands-not_violated operator x y (inr (inl (e, ge))) = rw e (ground (arith, ge))
Stands-not_violated operator x y (inr (inr (e, le))) = rw e (ground (arith, le))

-- The measured value of `d` stands in the relation to the value of `p` that `p` asks for.
pub Meets : Values → MeasurementPredicate → MeasurementDefinition → Type 0
Meets values p d =
    (v : Bytes) × (x : Rat) × (y : Rat) × (lookup d.name values ≡ some v)
    × (measurement_number v d.kind ≡ ok x)
    × (measurement_number p.value d.kind ≡ ok y)
    × Stands p.operator x y

value_read :
    (d : MeasurementDefinition) (found : Option Bytes)
    → check_value d found ≡ ok tt
    → (v : Bytes) × (x : Rat) × (found ≡ some v) × (measurement_number v d.kind ≡ ok x)
unfolding check_value
value_read d none h = ground (arith, h)
value_read d (some v) h = elim (Result-cases (measurement_number v d.kind)) [
  | inl r ↦ (v, r.0, refl, r.1)
  | inr e ↦ absurd (ground (arith, e.1, h))
]

pub values_read :
    (values : Values) (ds : List MeasurementDefinition) (d : MeasurementDefinition)
    → check_values values ds ≡ ok tt
    → In d ds
    → (v : Bytes) × (x : Rat) × (lookup d.name values ≡ some v)
      × (measurement_number v d.kind ≡ ok x)
unfolding check_values
values_read values [] d h i = elim i [ ]
values_read values (a ∷ ds) d h first = value_read a (lookup a.name values) (ground arith)
values_read values (a ∷ ds) d h (later i) = values_read values ds d (ground arith) i

-- Of a measurement with another name a predicate asks nothing.
pub IsMet : Values → MeasurementPredicate → MeasurementDefinition → Type 0
IsMet values p d = (text_eq d.name p.measurement ≡ false) ⊎ Meets values p d

pub AllMet : Values → List MeasurementPredicate → List MeasurementDefinition → Type 0
AllMet values ps ds = All (λ p. All (IsMet values p) ds) ps

this_met :
    (values : Values) (p : MeasurementPredicate) (ds : List MeasurementDefinition)
    (d : MeasurementDefinition) {v : Bytes} {x : Rat}
    → lookup d.name values ≡ some v
    → measurement_number v d.kind ≡ ok x
    → meets_predicate values p (d ∷ ds) ≡ ok true
    → text_eq d.name p.measurement ≡ true
    → is_operator p.operator ≡ true
    → Meets values p d
unfolding meets_predicate Meets
this_met values p ds d {v} {x} look num h named known =
    elim (Result-cases (measurement_number p.value d.kind)) [
      | inl (y, bound) ↦
          let good : is_violated p.operator x y ≡ false =
            ground (arith, bound, h, look, num, named) in
          (v, x, y, look, num, bound, Stands-cases p.operator x y known good)
      | inr e ↦ absurd (let a = e.1 in ground (arith, a, h, look, num, named))
    ]

rest_met :
    (values : Values) (p : MeasurementPredicate) (ds : List MeasurementDefinition)
    (d : MeasurementDefinition)
    → meets_predicate values p (d ∷ ds) ≡ ok true
    → meets_predicate values p ds ≡ ok true
unfolding meets_predicate
rest_met values p ds d h = ground arith

predicate-IsMet :
    (values : Values) (p : MeasurementPredicate) (ds : List MeasurementDefinition)
    → check_values values ds ≡ ok tt
    → is_operator p.operator ≡ true
    → meets_predicate values p ds ≡ ok true
    → All (IsMet values p) ds
unfolding IsMet check_values
predicate-IsMet values p [] c known h = tt
predicate-IsMet values p (d ∷ ds) c known h = (
  elim (Bool-cases (text_eq d.name p.measurement)) [
    | inl e ↦
        let (v, x, look, num) = values_read values (d ∷ ds) d c first in
        inr (this_met values p ds d look num h e known)
    | inr e ↦ inl e
  ],
  predicate-IsMet values p ds (ground arith) known (rest_met values p ds d h),
)

met_predicate :
    (values : Values) (p : MeasurementPredicate) (ds : List MeasurementDefinition)
    → All (IsMet values p) ds
    → meets_predicate values p ds ≡ ok true
unfolding IsMet Meets meets_predicate
met_predicate values p [] h = refl
met_predicate values p (d ∷ ds) (inl other, rest) = rw (other, met_predicate values p ds rest)
met_predicate values p (d ∷ ds) (inr (v, x, y, look, num, bound, stands), rest) =
    let holds = Stands-not_violated p.operator x y stands in
    let more = met_predicate values p ds rest in
    elim (Bool-cases (text_eq d.name p.measurement)) [
      | inl e ↦ rw (e, look, num, bound, holds, more) refl
      | inr e ↦ rw (e, more) refl
    ]

operator_known :
    (ds : List MeasurementDefinition) (p : MeasurementPredicate) (ps : List MeasurementPredicate)
    → check_predicates ds (p ∷ ps) ≡ ok tt
    → (is_operator p.operator ≡ true) × (check_predicates ds ps ≡ ok tt)
unfolding check_predicates
operator_known ds p ps h =
    let (known, h1) =
      passed_guard (not (is_operator p.operator)) (message "invalid achievement comparison") h in
    let (found, _, h2) = >>=-eq-ok (find_measurement p false ds) _ h1 in
    let (_, h3) =
      passed_guard (not found) (message "achievement references undeclared measurement") h2 in
    (was_true (is_operator p.operator) known, h3)

predicates_checked :
    (ps : List MeasurementPredicate) (e : EvaluationContract)
    → validate_predicates ps e ≡ ok tt
    → check_predicates e.measurements ps ≡ ok tt
unfolding validate_predicates
predicates_checked ps e h = ground arith

all_met :
    (values : Values) (ps : List MeasurementPredicate) (ds : List MeasurementDefinition)
    → check_values values ds ≡ ok tt
    → (all : List MeasurementDefinition) → check_predicates all ps ≡ ok tt
    → meets_all values ds ps ≡ ok true
    → AllMet values ps ds
unfolding AllMet meets_all
all_met values [] ds c all q h = tt
all_met values (p ∷ ps) ds c all q h =
    let (known, more) = operator_known all p ps q in
    (
      predicate-IsMet values p ds c known (ground (arith, h)),
      all_met values ps ds c all more (ground (arith, h)),
    )

met_all :
    (values : Values) (ps : List MeasurementPredicate) (ds : List MeasurementDefinition)
    → AllMet values ps ds
    → meets_all values ds ps ≡ ok true
unfolding AllMet meets_all
met_all values [] ds h = refl
met_all values (p ∷ ps) ds h = rw (met_predicate values p ds h.0, met_all values ps ds h.1) refl

pub values_checked :
    (values : Values) (e : EvaluationContract)
    → validate_values values e ≡ ok tt
    → check_values values e.measurements ≡ ok tt
unfolding validate_values
values_checked values e h = ground arith

-- For values and predicates that the two checks accept, the answer is yes exactly where for every
-- predicate and every declared measurement that it names the measured number is, as an exact
-- rational number, equal to the predicate's number under `eq`, at least it under `ge`, and at most
-- it under `le`.
pub meets_predicates_iff :
    (values : Values) (ps : List MeasurementPredicate) (e : EvaluationContract)
    → validate_values values e ≡ ok tt
    → validate_predicates ps e ≡ ok tt
    → (meets_predicates values ps e ≡ ok true) ↔ AllMet values ps e.measurements
unfolding meets_predicates
meets_predicates_iff values ps e v q = (
  λ h.
      all_met values ps e.measurements (values_checked values e v) e.measurements
        (predicates_checked ps e q) (ground (arith, v, q, h)),
  λ h. rw (v, q, met_all values ps e.measurements h) refl,
)

-- A yes is given only where the values and the predicates are accepted and every predicate holds of
-- every declared measurement that it names.
pub meets_predicates-AllMet :
    (values : Values) (ps : List MeasurementPredicate) (e : EvaluationContract)
    → meets_predicates values ps e ≡ ok true
    → AllMet values ps e.measurements
unfolding meets_predicates
meets_predicates-AllMet values ps e h =
    all_met values ps e.measurements (values_checked values e (ground (arith, h))) e.measurements
      (predicates_checked ps e (ground (arith, h))) (ground (arith, h))
