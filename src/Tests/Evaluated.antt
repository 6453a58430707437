-- ===== src/Tests/Evaluated.antt =====
-- Runs of the evaluation contract.
use science_ladder.Base.{◌≡◌, refl, true, [], ◌∷◌, text, text_eq, ok}
use science_ladder.Base.{first, later}
use science_ladder.Base.Int.{scale}
use science_ladder.Ticks.{
  parse_ticks, ticks_match, all_digits, natural_match, value, unsigned, set_string,
}
use science_ladder.Evaluation.{MeasurementDefinition, is_identifier, all_marks, measurement_number}
use science_ladder.Evaluation.Measured.{
  is_primary, check_bounds, check_definitions, validate_measurements, primaries,
  validate_measurements_lem,
}

abbrev distance : MeasurementDefinition
distance = record {
  name = text "distance";
  kind = text "integer";
  unit_of = text "m";
  role = text "primary";
  interpretation = text "direct";
  definition = text "the distance covered";
  minimum = text "0";
  maximum = text "99";
}

abbrev cost : MeasurementDefinition
cost = record {
  name = text "cost";
  kind = text "integer";
  unit_of = text "J";
  role = text "constraint";
  interpretation = text "bound";
  definition = text "the energy that was used";
  minimum = [];
  maximum = [];
}

measured :
    validate_measurements (λ s. s) (text "distance") (text "m") (cost ∷ distance ∷ []) ≡ ok tt
unfolding validate_measurements check_definitions check_bounds is_identifier all_marks
    measurement_number parse_ticks ticks_match all_digits natural_match value unsigned set_string
    text_eq scale
measured = refl

is_primary-distance : is_primary distance ≡ true
unfolding text_eq
is_primary-distance = refl

validate_measurements_lem_example :
    (primaries (cost ∷ distance ∷ []) ≡ 1)
    × (distance.name ≡ text "distance")
    × (distance.unit_of ≡ text "m")
validate_measurements_lem_example =
    validate_measurements_lem (λ s. s) (text "distance") (text "m") (cost ∷ distance ∷ []) distance
      measured (later first) is_primary-distance
