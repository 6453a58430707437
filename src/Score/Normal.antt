-- ===== src/Score/Normal.antt =====
-- What `NormalizeScore` returns: the text of the exact score, rounded against the solver.
use science_ladder.Base.{
  ℕ, ◌*◌, ◌<◌, ◌≡◌, inl, inr, ap, ◌∙◌, Bool, true, false, arith, Bytes, Result, ok, err, Error,
  Result-cases,
}
use science_ladder.Base.Int.{
  ℤ, pos, scale, pos_part, ◌≤ℤ◌, ◌<ℤ◌, ◌+ℤ◌, ◌-ℤ◌, scale_parts, eq_of_parts,
}
use science_ladder.Ticks.{parse_ticks, to_string}
use science_ladder.Ticks.RoundTrip.{parse_ticks-set_string, set_string-to_string}
use science_ladder.Decimal.{Rat, decimal}
use science_ladder.Decimal.Bounds.{decimal-den}
use science_ladder.Metric.{Metric, is_maximize, is_minimize}
use science_ladder.Score.{
  require, is_positive, quo, round_ticks, normalize_rational_score, normalize_score,
}
use science_ladder.Score.Rounding.{IsFloor, IsCeiling, round_ticks-IsFloor, round_ticks-IsCeiling}

-- t quanta, for a positive quantum.
abbrev pub times : ℤ → Rat → Rat
times t q = record { num = scale t (pos_part q.num); den = q.den }

infix 50 ◌≤ℚ◌ ◌<ℚ◌
abbrev pub ◌≤ℚ◌ : Rat → Rat → Type 0
x ≤ℚ y = scale x.num y.den ≤ℤ scale y.num x.den

abbrev pub ◌<ℚ◌ : Rat → Rat → Type 0
x <ℚ y = scale x.num y.den <ℤ scale y.num x.den

parse_ticks-to_string_self :
    (t : ℤ) {z : ℤ} → parse_ticks (to_string t) ≡ ok z → parse_ticks (to_string t) ≡ ok t
parse_ticks-to_string_self t {z} h =
    let same : z ≡ t = cc (parse_ticks-set_string (to_string t) h, set_string-to_string t) in
    h ∙ ap ok same

require-ok {ℓ} :
    {A : Type ℓ} (r : Result A) (bad : A → Bool) (e : Error) {a : A}
    → require r bad e ≡ ok a
    → (r ≡ ok a) × (bad a ≡ false)
require-ok (ok b) bad e h = ground arith
require-ok (err x) bad e h = cc

module _ (v q : Rat) (metric : Metric) {s : Bytes} (read : decimal metric.quantum ≡ ok q)
    (done : normalize_rational_score v metric ≡ ok s) where
  abbrev ticks : ℤ
  ticks = round_ticks metric.direction (quo v q)

  quantum_positive : is_positive q.num ≡ true
  unfolding normalize_rational_score
  quantum_positive = ground arith

  ticks_text : s ≡ to_string ticks
  unfolding normalize_rational_score
  ticks_text = ground arith

  ticks_parse : parse_ticks s ≡ ok ticks
  unfolding normalize_rational_score
  ticks_parse = elim (Result-cases (parse_ticks (to_string ticks))) [
    | inl r ↦ rw ticks_text (parse_ticks-to_string_self ticks r.1)
    | inr r ↦ absurd (ground (arith, r.1))
  ]

scale-scale : (z : ℤ) (a b : ℕ) → scale (scale z a) b ≡ scale z (b * a)
scale-scale z a b = eq_of_parts _ _ (
    omega (
      arith,
      scale_parts (scale z a) b,
      scale_parts z (b * a),
      ap (λ (t : ℕ). t * b) (scale_parts z a),
    ))

module _ (v q : Rat) (t : ℤ) where
  floor_times :
      IsFloor t (quo v q).num (quo v q).den → (times t q ≤ℚ v) × (v <ℚ times (t +ℤ pos 1) q)
  unfolding quo
  floor_times h = rw (scale-scale, scale-scale) h

  ceiling_times :
      IsCeiling t (quo v q).num (quo v q).den → (v ≤ℚ times t q) × (times (t -ℤ pos 1) q <ℚ v)
  unfolding quo
  ceiling_times h = rw (scale-scale, scale-scale) h

quo-den : (v q : Rat) → 0 < v.den → is_positive q.num ≡ true → 0 < (quo v q).den
unfolding quo
quo-den v q p h = grind arith

module _ (score : Bytes) (metric : Metric) {s : Bytes} {v q : Rat}
    (score_read : decimal score ≡ ok v) (quantum_read : decimal metric.quantum ≡ ok q)
    (done : normalize_score score metric ≡ ok s) where
  inner : normalize_rational_score v metric ≡ ok s
  unfolding normalize_score
  inner = rw score_read at done

  -- Where the score and the quantum read as decimals, more is better and a score is returned, it
  -- reads as ticks, and that many quanta are at most the score, while one quantum more is above it.
  pub normalize_score-floor :
      is_maximize metric.direction ≡ true
      → (t : ℤ) × (parse_ticks s ≡ ok t) × (times t q ≤ℚ v) × (v <ℚ times (t +ℤ pos 1) q)
  normalize_score-floor h =
      let t = ticks v q metric quantum_read inner in
      let positive =
        quo-den v q (decimal-den score score_read)
          (quantum_positive v q metric quantum_read inner) in
      let (low, high) =
        floor_times v q t
          (round_ticks-IsFloor metric.direction (quo v q).num (quo v q).den positive h) in
      (t, ticks_parse v q metric quantum_read inner, low, high)

  -- Where the score and the quantum read as decimals, less is better and a score is returned, it
  -- reads as ticks, and that many quanta are at least the score, while one quantum less is below
  -- it.
  pub normalize_score-ceiling :
      is_minimize metric.direction ≡ true
      → (t : ℤ) × (parse_ticks s ≡ ok t) × (v ≤ℚ times t q) × (times (t -ℤ pos 1) q <ℚ v)
  normalize_score-ceiling h =
      let t = ticks v q metric quantum_read inner in
      let positive =
        quo-den v q (decimal-den score score_read)
          (quantum_positive v q metric quantum_read inner) in
      let (low, high) =
        ceiling_times v q t
          (round_ticks-IsCeiling metric.direction (quo v q).num (quo v q).den positive h) in
      (t, ticks_parse v q metric quantum_read inner, low, high)
