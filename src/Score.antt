-- ===== src/Score.antt =====
-- pkg/protocol/scores.go: scores in ticks, the thresholds that they reach and their confirmation.
pub mod Rounding
pub mod Normal
pub mod Confirm
use science_ladder.Base.{
  ℕ, suc, ◌+◌, ◌-◌, ◌*◌, ◌/◌, ◌%◌, Bool, ◌&&◌, not, ◌==◌, if◌then◌else◌, Bytes, is_empty, Result,
  ok, err, Error, message, reject_if, ◌>>=◌, ◌>>◌,
}
use science_ladder.Base.Int.{
  ℤ, pos, negsuc, sub_ℕ, scale, pos_part, abs_ℕ, ltb_ℤ, leb_ℤ, ◌+ℤ◌, ◌-ℤ◌,
}
use science_ladder.Ticks.{parse_ticks, to_string}
use science_ladder.Decimal.{Rat, decimal}
use science_ladder.Metric.{Metric, is_maximize, is_minimize}

-- `v, err := f(); if err != nil || bad(v) { return errors.New(message) }`
abbrev pub require {ℓ} : {A : Type ℓ} → Result A → (A → Bool) → Error → Result A
require (ok a) bad e = if bad a then err e else ok a
require (err _) bad e = err e

abbrev pub is_positive : ℤ → Bool
is_positive z = ltb_ℤ (pos 0) z

-- `new(big.Rat).Quo(v, q)`, for a positive q.
unfoldable pub quo : Rat → Rat → Rat
unfolding scale
quo v q = record { num = scale v.num q.den; den = v.den * pos_part q.num }

-- `QuoRem`, which rounds towards zero.
unfoldable pub truncate : ℤ → ℕ → ℤ
truncate (pos n) d = pos (n / d)
truncate (negsuc n) d = sub_ℕ 0 (suc n / d)

abbrev pub remainder : ℤ → ℕ → ℕ
remainder z d = abs_ℕ z % d

-- The ticks of a ratio: rounded down where more is better, up where less is better.
unfoldable pub round_ticks : Bytes → Rat → ℤ
unfolding truncate ◌+ℤ◌ ◌-ℤ◌
round_ticks direction ratio =
    let ticks = truncate ratio.num ratio.den in
    if remainder ratio.num ratio.den == 0
    then ticks
    else if is_maximize direction && ltb_ℤ ratio.num (pos 0)
    then ticks -ℤ pos 1
    else if is_minimize direction && ltb_ℤ (pos 0) ratio.num
    then ticks +ℤ pos 1
    else ticks

abbrev pub below_domain : Bytes → ℤ → Result (Unit {0})
below_domain bound ticks = if is_empty bound then ok tt else do
  require (parse_ticks bound) (λ min. ltb_ℤ ticks min) (message "score below declared domain")
  ok tt

abbrev pub above_domain : Bytes → ℤ → Result (Unit {0})
above_domain bound ticks = if is_empty bound then ok tt else do
  require (parse_ticks bound) (λ max. ltb_ℤ max ticks) (message "score above declared domain")
  ok tt

unfoldable pub normalize_rational_score : Rat → Metric → Result Bytes
normalize_rational_score v metric = do
  q ←
      require (decimal metric.quantum) (λ q. not (is_positive q.num))
        (message "quantum must be a positive decimal")
  reject_if (not (is_maximize metric.direction) && not (is_minimize metric.direction))
      (message "unknown metric direction")
  let ticks = round_ticks metric.direction (quo v q)
  let result = to_string ticks
  parse_ticks result
  below_domain metric.domain_min_ticks ticks
  above_domain metric.domain_max_ticks ticks
  ok result

unfoldable pub normalize_score : Bytes → Metric → Result Bytes
normalize_score score metric = do v ← decimal score; normalize_rational_score v metric

-- `CompareTicks`, as the test that `x.Cmp(y)` is passed to.
unfoldable pub compare_ticks {ℓ} : {A : Type ℓ} → Bytes → Bytes → (ℤ → ℤ → Result A) → Result A
compare_ticks a b use_cmp = do x ← parse_ticks a; y ← parse_ticks b; use_cmp x y

unfoldable pub qualifies : Bytes → Bytes → Bytes → Result Bool
unfolding compare_ticks
qualifies score threshold direction = compare_ticks score threshold λ x y.
    if is_maximize direction
    then ok (leb_ℤ y x)
    else if is_minimize direction
    then ok (leb_ℤ x y)
    else err (message "unknown direction")

-- The score that counts against the solver.
abbrev pub confirmed_text : Bytes → Bool → Bool → Bytes → Bytes → Result Bytes
confirmed_text direction less greater a b =
    if is_maximize direction
    then (if less then ok a else ok b)
    else if is_minimize direction
    then (if greater then ok a else ok b)
    else err (message "unknown direction")

unfoldable pub confirm_scores : Bytes → Bytes → Metric → Result Bytes
unfolding ◌-ℤ◌
confirm_scores a b metric = do
  x ← parse_ticks a
  y ← parse_ticks b
  t ←
      require (parse_ticks metric.tolerance_ticks) (λ t. ltb_ℤ t (pos 0))
        (message "invalid tolerance")
  reject_if (ltb_ℤ t (pos (abs_ℕ (x -ℤ y)))) (message "nondeterministic scores")
  confirmed_text metric.direction (ltb_ℤ x y) (ltb_ℤ y x) a b
