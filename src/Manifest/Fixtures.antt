-- ===== src/Manifest/Fixtures.antt =====
-- pkg/protocol/validate.go: the fixtures of a manifest.
use science_ladder.Base.{
  Bool, ◌&&◌, ◌||◌, not, List, [], ◌∷◌, if◌then◌else◌, Bytes, text, is_empty, is_in, text_eq,
  Result, ok, message, ◌>>=◌, ◌>>◌, reject_if,
}
use science_ladder.Ticks.{parse_ticks}
use science_ladder.Artifacts.{Unicode, validate_path}
use science_ladder.Evaluation.{is_identifier}
use science_ladder.Manifest.{Fixture}

abbrev pub is_outcome : Bytes → Bool
is_outcome o =
    text_eq o (text "valid")
    || text_eq o (text "hard_gate_failed")
    || text_eq o (text "invalid_output")
    || text_eq o (text "resource_limit")

-- The expected ticks, where the fixture has some.
abbrev pub check_ticks : Bytes → Result (Unit {0})
check_ticks ticks =
    let read = (do parse_ticks ticks; ok tt) in if is_empty ticks then ok tt else read

-- What the four fixtures with a fixed name must expect.
unfoldable pub check_named : Bool → Bytes → Fixture → Result (Unit {0})
unfolding text_eq
check_named timed baseline_ticks f =
    if text_eq f.name (text "baseline")
    then reject_if
        (not (text_eq f.expected_outcome (text "valid"))
          || (not timed && not (text_eq f.expected_ticks baseline_ticks)))
        (message "baseline fixture must declare the valid baseline ticks")
    else if text_eq f.name (text "valid")
    then reject_if (not (text_eq f.expected_outcome (text "valid")))
        (message "valid fixture must pass")
    else if text_eq f.name (text "invalid")
    then reject_if
        (not (text_eq f.expected_outcome (text "hard_gate_failed"))
          && not (text_eq f.expected_outcome (text "invalid_output")))
        (message "invalid fixture must fail a hard gate or parsing")
    else if text_eq f.name (text "malformed")
    then reject_if (not (text_eq f.expected_outcome (text "invalid_output")))
        (message "malformed fixture must fail parsing")
    else ok tt

-- The loop over the fixtures; the answer is the names. `timed` is the test for performance mode.
module _ (u : Unicode) (timed : Bool) (baseline_ticks : Bytes) where
  unfoldable pub check_fixtures : List Bytes → List Fixture → Result (List Bytes)
  unfolding is_identifier validate_path parse_ticks check_named text_eq
  check_fixtures names [] = ok names
  check_fixtures names (f ∷ fs) = do
    reject_if (not (is_identifier f.name) || is_in f.name names)
        (message "invalid or duplicate fixture")
    validate_path u f.path
    reject_if (not (is_outcome f.expected_outcome)) (message "unsupported fixture outcome")
    reject_if (timed && not (is_empty f.expected_ticks))
        (message "measured fixtures use timing evidence, not predeclared exact ticks")
    check_ticks f.expected_ticks
    check_named timed baseline_ticks f
    check_fixtures (f.name ∷ names) fs

  unfoldable pub validate_fixtures : List Fixture → Result (Unit {0})
  unfolding check_fixtures text_eq
  validate_fixtures fs = do
    names ← check_fixtures [] fs
    reject_if
        (not (
          is_in (text "baseline") names
          && is_in (text "valid") names
          && is_in (text "invalid") names
          && is_in (text "malformed") names))
        (message "required fixture missing")
