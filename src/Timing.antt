-- ===== src/Timing.antt =====
-- pkg/protocol/measurement.go: paired timings and the interval of their median.
pub mod Interval
pub mod Policy
pub mod Ratio
pub mod Summary
use science_ladder.Base.{
  ℕ, zero, suc, ◌+◌, ◌-◌, ◌*◌, ◌/◌, ◌%◌, ◌^◌, Bool, ◌||◌, not, List, [], ◌∷◌, leb, ◌==◌,
  if◌then◌else◌, Result, ok, message, ◌>>=◌, ◌>>◌, reject_if,
}
use science_ladder.Base.Int.{ℤ, pos, pos_part, leb_ℤ, ltb_ℤ}
use science_ladder.Decimal.{Rat}

pub record TimingTrial : Type 0 where
  pub baseline_nanos : ℤ
  pub candidate_nanos : ℤ
  pub baseline_first : Bool
  pub quality_passed : Bool

-- `86400e9`, a day.
abbrev pub day_nanos : ℤ
day_nanos = pos 86400000000000

abbrev pub bad_duration : TimingTrial → Bool
bad_duration t =
    leb_ℤ t.baseline_nanos (pos 0)
    || leb_ℤ t.candidate_nanos (pos 0)
    || ltb_ℤ day_nanos t.baseline_nanos
    || ltb_ℤ day_nanos t.candidate_nanos

abbrev pub same_bool : Bool → Bool → Bool
same_bool a b = if a then b else not b

-- The loop over the measured trials, from the i-th on: the ratios in their order.
unfoldable pub trial_ratios : ℕ → List TimingTrial → Result (List Rat)
trial_ratios i [] = ok []
trial_ratios i (t ∷ ts) = do
  reject_if (not t.quality_passed)
      (message "quality failure cannot be excluded from measured trials")
  reject_if (bad_duration t) (message "invalid trusted duration")
  reject_if (not (same_bool t.baseline_first (i % 2 == 0)))
      (message "measured order differs from locked alternation")
  rest ← trial_ratios (i + 1) ts
  ok (record { num = t.baseline_nanos; den = pos_part t.candidate_nanos } ∷ rest)

-- The loop over the warm-up trials.
unfoldable pub check_warmups : ℕ → List TimingTrial → Result (Unit {0})
check_warmups i [] = ok tt
check_warmups i (t ∷ ts) = do
  reject_if
      (not t.quality_passed || bad_duration t || not (same_bool t.baseline_first (i % 2 == 0)))
      (message "warmup failed or order changed")
  check_warmups (i + 1) ts

-- `(*big.Int).Binomial`
unfoldable pub binomial : ℕ → ℕ → ℕ
binomial n zero = 1
binomial zero (suc k) = 0
binomial (suc n) (suc k) = binomial n k + binomial n (suc k)

-- The loop over k, with as much fuel as there are values left.
unfoldable pub search_index : ℕ → ℕ → ℕ → ℕ → ℕ → ℕ → ℕ
unfolding binomial
search_index n target zero k sum answer = answer
search_index n target (suc fuel) k sum answer =
    let sum' = sum + binomial n (k - 1) in
    let rest = search_index n target fuel (k + 1) sum' k in
    if leb (sum' * 2000000) target then rest else answer

-- A confidence above one million leaves no target: the subtraction stops at 0 here, where the
-- source goes below, and no sum is that small in either.
abbrev pub target_of : ℕ → ℕ → ℕ
target_of n confidence_ppm = 2 ^ n * (1000000 - confidence_ppm)

unfoldable pub median_interval_index : ℕ → ℕ → ℕ
unfolding search_index
median_interval_index n confidence_ppm =
    search_index n (target_of n confidence_ppm) ((n + 1) / 2) 1 0 0
