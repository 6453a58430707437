-- ===== src/Evaluation/Values.antt =====
-- pkg/protocol/evaluation.go: the measured values of a result and the predicates of a milestone. A Go
-- map is an association list in which a key stands once; its length is the size of the map.
pub mod Predicates
pub mod Total
use science_ladder.Base.{
  Bool, true, false, ◌&&◌, ◌||◌, not, Option, none, some, List, [], ◌∷◌, ltb, ◌==◌, if◌then◌else◌,
  Bytes, text, is_empty, text_eq, length, Result, ok, err, message, fault, ◌>>=◌, ◌>>◌, reject_if,
}
use science_ladder.Signing.{lookup}
use science_ladder.Decimal.{Rat, ltb_ℚ, eqb_ℚ}
use science_ladder.Evaluation.{MeasurementDefinition, measurement_number}
use science_ladder.Evaluation.Contract.{EvaluationContract}

abbrev pub Values : Type 0
Values = List (Bytes × Bytes)

pub record MeasurementPredicate : Type 0 where
  pub measurement : Bytes
  pub operator : Bytes
  pub value : Bytes

-- `bound, err := MeasurementNumber(…); if err != nil || …`
abbrev pub is_bad_bound : Result Rat → (Rat → Bool) → Bool
is_bad_bound (err e) outside = true
is_bad_bound (ok bound) outside = outside bound

-- The value of one measurement.
unfoldable pub check_value : MeasurementDefinition → Option Bytes → Result (Unit {0})
unfolding measurement_number
check_value d none = err (message "missing measurement")
check_value d (some v) = do
  x ← measurement_number v d.kind
  reject_if
      (not (is_empty d.minimum)
        && is_bad_bound (measurement_number d.minimum d.kind) (λ bound. ltb_ℚ x bound))
      (message "measurement below declared domain")
  reject_if
      (not (is_empty d.maximum)
        && is_bad_bound (measurement_number d.maximum d.kind) (λ bound. ltb_ℚ bound x))
      (message "measurement above declared domain")

unfoldable pub check_values : Values → List MeasurementDefinition → Result (Unit {0})
unfolding check_value lookup
check_values values [] = ok tt
check_values values (d ∷ ds) = do check_value d (lookup d.name values); check_values values ds

unfoldable pub validate_values : Values → EvaluationContract → Result (Unit {0})
unfolding check_values
validate_values values e = do
  reject_if (not (length values == length e.measurements))
      (message "missing or undeclared measurement; arbitrary diagnostics are forbidden")
  check_values values e.measurements

-- The loop over the measurements for one predicate: whether one has its name.
unfoldable pub find_measurement :
    MeasurementPredicate → Bool → List MeasurementDefinition → Result Bool
unfolding measurement_number text_eq
find_measurement p found [] = ok found
find_measurement p found (d ∷ ds) =
    let other = find_measurement p found ds in
    let this = (do measurement_number p.value d.kind; find_measurement p true ds) in
    if text_eq d.name p.measurement then this else other

abbrev pub is_operator : Bytes → Bool
is_operator o = text_eq o (text "eq") || text_eq o (text "ge") || text_eq o (text "le")

unfoldable pub check_predicates :
    List MeasurementDefinition → List MeasurementPredicate → Result (Unit {0})
unfolding find_measurement text_eq
check_predicates ds [] = ok tt
check_predicates ds (p ∷ ps) = do
  reject_if (not (is_operator p.operator)) (message "invalid achievement comparison")
  found ← find_measurement p false ds
  reject_if (not found) (message "achievement references undeclared measurement")
  check_predicates ds ps

unfoldable pub validate_predicates :
    List MeasurementPredicate → EvaluationContract → Result (Unit {0})
unfolding check_predicates
validate_predicates ps e = do
  reject_if (ltb 32 (length ps)) (message "too many achievement predicates")
  check_predicates e.measurements ps

-- The comparison that ends the loops.
unfoldable pub is_violated : Bytes → Rat → Rat → Bool
unfolding text_eq
is_violated operator x y =
    text_eq operator (text "eq") && not (eqb_ℚ x y)
    || text_eq operator (text "ge") && ltb_ℚ x y
    || text_eq operator (text "le") && ltb_ℚ y x

-- A missing key of a map of texts reads as the empty text.
abbrev pub value_of : Option Bytes → Bytes
value_of none = []
value_of (some v) = v

-- `x, _ := MeasurementNumber(…)`, which is then used: without a number that is a nil dereference.
abbrev pub used : Result Rat → Result Rat
used (err e) = err fault
used (ok x) = ok x

-- The loop over the measurements for one predicate.
unfoldable pub meets_predicate :
    Values → MeasurementPredicate → List MeasurementDefinition → Result Bool
unfolding measurement_number lookup is_violated text_eq
meets_predicate values p [] = ok true
meets_predicate values p (d ∷ ds) =
    let rest = meets_predicate values p ds in
    let this = (do
      x ← used (measurement_number (value_of (lookup d.name values)) d.kind)
      y ← used (measurement_number p.value d.kind)
      if is_violated p.operator x y then ok false else rest) in
    if text_eq d.name p.measurement then this else rest

unfoldable pub meets_all :
    Values → List MeasurementDefinition → List MeasurementPredicate → Result Bool
unfolding meets_predicate
meets_all values ds [] = ok true
meets_all values ds (p ∷ ps) =
    let rest = meets_all values ds ps in
    do this ← meets_predicate values p ds; if this then rest else ok false

unfoldable pub meets_predicates :
    Values → List MeasurementPredicate → EvaluationContract → Result Bool
unfolding validate_values validate_predicates meets_all
meets_predicates values ps e = do
  validate_values values e
  validate_predicates ps e
  meets_all values e.measurements ps
