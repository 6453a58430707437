-- ===== src/Evaluation/Measured.antt =====
-- pkg/protocol/evaluation.go: the declared measurements.
use science_ladder.Base.{
  is_in, ℕ, suc, ◌+◌, ◌≡◌, inl, inr, sym, ap, ◌∙◌, Bool, true, false, ◌&&◌, ◌||◌, not, Option, none,
  some, List, [], ◌∷◌, arith, ltb, ◌==◌, if◌then◌else◌, Result-cases, Bytes, text, is_empty,
  text_eq, text_eq→eq, length, Result, ok, message, ◌>>=◌, ◌>>◌, reject_if,
}
use science_ladder.Base.{In, first, later}
use science_ladder.Decimal.{Rat, ltb_ℚ}
use science_ladder.Evaluation.{
  MeasurementDefinition, is_identifier, measurement_number, bounded_text,
}

abbrev pub is_kind : Bytes → Bool
is_kind kind =
    text_eq kind (text "integer") || text_eq kind (text "decimal") || text_eq kind (text "rational")

abbrev pub is_interpretation : Bytes → Bool
is_interpretation i =
    text_eq i (text "direct")
    || text_eq i (text "bound")
    || text_eq i (text "proxy")
    || text_eq i (text "search-gradient")

abbrev pub is_primary : MeasurementDefinition → Bool
is_primary d = text_eq d.role (text "primary")

abbrev pub is_other_role : MeasurementDefinition → Bool
is_other_role d = text_eq d.role (text "constraint") || text_eq d.role (text "diagnostic")

abbrev pub optional_number : Bytes → Bytes → Result (Option Rat)
optional_number value kind =
    let read = (do q ← measurement_number value kind; ok (some q)) in
    if is_empty value then ok none else read

abbrev pub is_reversed : Option Rat → Option Rat → Bool
is_reversed (some min) (some max) = ltb_ℚ max min
is_reversed _ _ = false

-- Minimum and maximum of a measurement.
unfoldable pub check_bounds : MeasurementDefinition → Result (Unit {0})
unfolding measurement_number
check_bounds d = do
  min ← optional_number d.minimum d.kind
  max ← optional_number d.maximum d.kind
  reject_if (is_reversed min max) (message "measurement bounds reversed")

-- How many measurements are primary.
pub primaries : List MeasurementDefinition → ℕ
primaries [] = 0
primaries (d ∷ ds) = if is_primary d then suc (primaries ds) else primaries ds

-- The loop over the measurements, for a metric with the given name and unit.
module _ (trim_space : Bytes → Bytes) (metric_name metric_unit : Bytes) where
  unfoldable pub check_definitions : List Bytes → ℕ → List MeasurementDefinition → Result ℕ
  unfolding check_bounds is_identifier
  check_definitions names primary [] = ok primary
  check_definitions names primary (d ∷ ds) = do
    reject_if
        (not (is_identifier d.name)
          || is_in d.name names
          || is_empty d.unit_of
          || not (bounded_text trim_space d.definition))
        (message "invalid measurement definition")
    reject_if (not (is_kind d.kind)) (message "unknown measurement type")
    reject_if (is_primary d && not (text_eq d.name metric_name && text_eq d.unit_of metric_unit))
        (message "primary measurement must match ranking metric")
    reject_if (not (is_primary d) && not (is_other_role d)) (message "unknown measurement role")
    reject_if (not (is_interpretation d.interpretation))
        (message "unknown scientific metric interpretation")
    check_bounds d
    check_definitions (d.name ∷ names) (if is_primary d then primary + 1 else primary) ds

  unfoldable pub validate_measurements : List MeasurementDefinition → Result (Unit {0})
  unfolding check_definitions
  validate_measurements ds = do
    reject_if (is_empty ds || ltb 32 (length ds))
        (message "one to thirty-two declared public measurements required")
    primary ← check_definitions [] 0 ds
    reject_if (not (primary == 1)) (
        message
          "exactly one primary measurement required; use separate tracks for incomparable objectives")

  step_parts :
      (names : List Bytes) (n : ℕ) (d : MeasurementDefinition) (ds : List MeasurementDefinition)
      {k : ℕ}
      → check_definitions names n (d ∷ ds) ≡ ok k
      → ((is_primary d && not (text_eq d.name metric_name && text_eq d.unit_of metric_unit))
          ≡ false)
        × (check_definitions (d.name ∷ names) (if is_primary d then n + 1 else n) ds ≡ ok k)
  unfolding check_definitions
  step_parts names n d ds h = (ground arith, ground arith)

  check_definitions-primaries :
      (names : List Bytes) (n : ℕ) (ds : List MeasurementDefinition) {k : ℕ}
      → check_definitions names n ds ≡ ok k
      → k ≡ n + primaries ds
  unfolding check_definitions primaries
  check_definitions-primaries names n [] h = ground (arith, h)
  check_definitions-primaries names n (d ∷ ds) h =
      let (_, more) = step_parts names n d ds h in
      let rest =
        check_definitions-primaries (d.name ∷ names) (if is_primary d then n + 1 else n) ds more in
      ground (arith, rest)

  primary_named :
      (names : List Bytes) (n : ℕ) (ds : List MeasurementDefinition) (d : MeasurementDefinition)
      {k : ℕ}
      → check_definitions names n ds ≡ ok k
      → In d ds
      → is_primary d ≡ true
      → (d.name ≡ metric_name) × (d.unit_of ≡ metric_unit)
  primary_named names n [] d h i p = elim i [ ]
  primary_named names n (x ∷ ds) d h first p =
      let (own, _) = step_parts names n x ds h in
      (
        text_eq→eq x.name metric_name (ground (arith, own, p)),
        text_eq→eq x.unit_of metric_unit (ground (arith, own, p)),
      )
  primary_named names n (x ∷ ds) d h (later i) p =
      let (_, more) = step_parts names n x ds h in
      primary_named (x.name ∷ names) (if is_primary x then n + 1 else n) ds d more i p

  validated :
      (ds : List MeasurementDefinition)
      → validate_measurements ds ≡ ok tt
      → check_definitions [] 0 ds ≡ ok 1
  unfolding validate_measurements
  validated ds h = elim (Result-cases (check_definitions [] 0 ds)) [
    | inl r ↦ r.1 ∙ ap ok (ground (arith, r.1, h))
    | inr e ↦ absurd (ground (arith, e.1, h))
  ]

  -- Where the declared measurements are accepted and one of them is given as primary, it is the
  -- only primary one, and it has the name and the unit of the ranking metric.
  pub validate_measurements_lem :
      (ds : List MeasurementDefinition) (d : MeasurementDefinition)
      → validate_measurements ds ≡ ok tt
      → In d ds
      → is_primary d ≡ true
      → (primaries ds ≡ 1) × (d.name ≡ metric_name) × (d.unit_of ≡ metric_unit)
  validate_measurements_lem ds d h i p =
      let k = validated ds h in
      let (name, unit_) = primary_named [] 0 ds d k i p in
      (sym (check_definitions-primaries [] 0 ds k ∙ omega arith), name, unit_)
