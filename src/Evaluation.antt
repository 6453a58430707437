-- ===== src/Evaluation.antt =====
-- pkg/protocol/evaluation.go: the contract that says what is measured, and how.
pub mod Rationale
pub mod Executor
pub mod Measured
pub mod Stage
pub mod Proof
pub mod Assets
pub mod Contract
pub mod Values
pub mod Match
use science_ladder.Base.{
  ℕ, zero, suc, ◌-◌, ◌/◌, ◌%◌, Bool, true, false, ◌&&◌, ◌||◌, not, Option, none, some, List, [],
  ◌∷◌, leb, ◌==◌, if◌then◌else◌, Bytes, text, text_eq, length, Result, ok, err, message, ◌>>=◌,
  ◌>>◌, reject_if,
}
use science_ladder.Base.Int.{ℤ, pos, leb_ℤ, abs_ℕ, pos_part}
use science_ladder.Ticks.{parse_ticks}
use science_ladder.Decimal.{Rat, decimal}

pub record MetricRationale : Type 0 where
  pub objective : Bytes
  pub improvement_meaning : Bytes
  pub evidence_urls : List Bytes
  pub preserved_conditions : List Bytes
  pub baseline_reason : Bytes
  pub meaningful_delta : Bytes
  pub proxy_attacks : List Bytes
  pub permitted_claim : Bytes
  pub excluded_claims : List Bytes

pub record MeasurementDefinition : Type 0 where
  pub name : Bytes
  pub kind : Bytes  -- type
  pub unit_of : Bytes
  pub role : Bytes
  pub interpretation : Bytes
  pub definition : Bytes
  pub minimum : Bytes
  pub maximum : Bytes

pub record ExecutorRequirements : Type 0 where
  pub os : Bytes
  pub architecture : Bytes
  pub accelerator : Bytes
  pub hardware_class : Bytes
  pub features : List Bytes

abbrev pub is_letter : ℕ → Bool
is_letter c = (leb b'a' c && leb c b'z') || (leb b'A' c && leb c b'Z') || (leb b'0' c && leb c b'9')

abbrev pub is_mark : ℕ → Bool
is_mark c = c == b'.' || c == b'_' || c == b'-'

unfoldable pub all_marks : Bytes → Bool
all_marks [] = true
all_marks (c ∷ cs) = (is_letter c || is_mark c) && all_marks cs

-- `identifierPattern`, `^[a-zA-Z0-9][a-zA-Z0-9._-]{0,127}$`
unfoldable pub is_identifier : Bytes → Bool
unfolding all_marks
is_identifier [] = false
is_identifier (c ∷ cs) = is_letter c && all_marks cs && leb (length cs) 127

-- The greatest common divisor (`GCD`), with a unit of fuel for each division.
unfoldable pub gcd : ℕ → ℕ → ℕ → ℕ
gcd zero a b = a
gcd (suc fuel) a b = let rest = gcd fuel b (a % b) in if b == 0 then a else rest

unfoldable pub before_slash : Bytes → Bytes
before_slash [] = []
before_slash (c ∷ cs) = if c == b'/' then [] else c ∷ before_slash cs

unfoldable pub after_slash : Bytes → Option Bytes
after_slash [] = none
after_slash (c ∷ cs) = if c == b'/' then some cs else after_slash cs

abbrev pub has_slash : Option Bytes → Bool
has_slash none = false
has_slash (some _) = true

abbrev pub integer_number : Result ℤ → Result Rat
integer_number (err e) = err e
integer_number (ok n) = ok (record { num = n; den = 1 })

-- `d, err := ParseTicks(…); if err != nil || d.Sign() <= 0`
abbrev pub positive : Result ℤ → Result ℕ
positive (err e) = err (message "rational denominator must be positive")
positive (ok d) =
    if leb_ℤ d (pos 0)
    then err (message "rational denominator must be positive")
    else ok (pos_part d)

unfoldable pub reduced : Bytes → Bytes → Result Rat
unfolding gcd
reduced top bottom = do
  n ← parse_ticks top
  d ← positive (parse_ticks bottom)
  reject_if (not (gcd (suc d) (abs_ℕ n) d == 1)) (message "rational must be reduced")
  ok (record { num = n; den = d })

-- `strings.Split(value, "/")`, which must give two parts.
abbrev pub rational_number : Bytes → Option Bytes → Result Rat
rational_number top none =
    err (message "rational measurement requires reduced numerator/denominator")
rational_number top (some bottom) =
    if has_slash (after_slash bottom)
    then err (message "rational measurement requires reduced numerator/denominator")
    else reduced top bottom

unfoldable pub measurement_number : Bytes → Bytes → Result Rat
unfolding reduced before_slash after_slash
measurement_number value kind =
    if text_eq kind (text "integer")
    then integer_number (parse_ticks value)
    else if text_eq kind (text "decimal")
    then decimal value
    else if text_eq kind (text "rational")
    then rational_number (before_slash value) (after_slash value)
    else err (message "unknown measurement type")

-- `strings.TrimSpace` is a parameter.
abbrev pub bounded_text : (Bytes → Bytes) → Bytes → Bool
bounded_text trim_space s = leb 12 (length (trim_space s)) && leb (length s) 8192
