-- ===== src/Timing/Interval.antt =====
-- The interval that is chosen is the narrowest that is wide enough.
use science_ladder.Base.{
  ℕ, zero, suc, ◌+◌, ◌-◌, ◌*◌, ◌/◌, ◌≤◌, ◌≡◌, ◌⊎◌, inl, inr, refl, sym, ap, ◌∙◌, Bool, true, false,
  arith, leb, if◌then◌else◌, Bool-cases, subst,
}
use science_ladder.Timing.{binomial, search_index, target_of, median_interval_index}

-- The binomial coefficients of n below k, added up.
pub lower_tail : ℕ → ℕ → ℕ
lower_tail n zero = 0
lower_tail n (suc k) = lower_tail n k + binomial n k

-- Twice the share of the lower tail is at most what the confidence leaves.
abbrev pub covers : ℕ → ℕ → ℕ → Bool
covers n target k = leb (lower_tail n k * 2000000) target

abbrev Best : ℕ → ℕ → ℕ → ℕ → Type 0
Best n target top r =
    ((r ≡ 0) ⊎ (covers n target r ≡ true))
    × (r ≤ top)
    × ((r ≡ top) ⊎ (covers n target (suc r) ≡ false))

search_index_step :
    (n target fuel a : ℕ)
    → search_index n target (suc fuel) (suc a) (lower_tail n a) a ≡ (
        if covers n target (suc a)
        then search_index n target fuel (suc (suc a)) (lower_tail n (suc a)) (suc a)
        else a)
unfolding search_index lower_tail
search_index_step n target fuel a =
    let back : suc a - 1 ≡ a = omega arith in
    let on : suc a + 1 ≡ suc (suc a) = omega arith in rw (back, on) refl

search_index-Best :
    (n target fuel a : ℕ)
    → (a ≡ 0) ⊎ (covers n target a ≡ true)
    → Best n target (a + fuel) (search_index n target fuel (suc a) (lower_tail n a) a)
search_index-Best n target zero a p = unfold search_index in (p, omega arith, inl (omega arith))
search_index-Best n target (suc fuel) a p = elim (Bool-cases (covers n target (suc a))) [
  | inl h ↦
      let on : suc a + fuel ≡ a + suc fuel = omega arith in
      let found : search_index n target (suc fuel) (suc a) (lower_tail n a) a
          ≡ search_index n target fuel (suc (suc a)) (lower_tail n (suc a)) (suc a) =
        search_index_step n target fuel a
        ∙ ap
            (λ (b : Bool).
              if b
              then search_index n target fuel (suc (suc a)) (lower_tail n (suc a)) (suc a)
              else a)
            h in
      subst
        (λ (t : ℕ). Best n target t (search_index n target (suc fuel) (suc a) (lower_tail n a) a))
        on
        (subst (Best n target (suc a + fuel)) (sym found)
          (search_index-Best n target fuel (suc a) (inr h)))
  | inr h ↦
      let found : search_index n target (suc fuel) (suc a) (lower_tail n a) a ≡ a =
        search_index_step n target fuel a
        ∙ ap
            (λ (b : Bool).
              if b
              then search_index n target fuel (suc (suc a)) (lower_tail n (suc a)) (suc a)
              else a)
            h in
      subst (Best n target (a + suc fuel)) (sym found) (p, omega arith, inr h)
]

-- The chosen index is 0, or the binomial lower tail below it is at most half of what the confidence
-- leaves; it is at most half of the trials, rounded up; and it is that half, or the next index has
-- a tail that is too large.
pub median_interval_index_lem :
    (n confidence_ppm : ℕ)
    → ((median_interval_index n confidence_ppm ≡ 0)
        ⊎ (covers n (target_of n confidence_ppm) (median_interval_index n confidence_ppm) ≡ true))
      × (median_interval_index n confidence_ppm ≤ (n + 1) / 2)
      × ((median_interval_index n confidence_ppm ≡ (n + 1) / 2)
          ⊎ (covers n (target_of n confidence_ppm) (suc (median_interval_index n confidence_ppm))
              ≡ false))
unfolding median_interval_index
median_interval_index_lem n confidence_ppm =
    let top : 0 + (n + 1) / 2 ≡ (n + 1) / 2 = omega arith in
    subst
      (λ (t : ℕ).
        Best n (target_of n confidence_ppm) t
          (search_index n (target_of n confidence_ppm) ((n + 1) / 2) 1 0 0))
      top
      (unfold lower_tail in
        search_index-Best n (target_of n confidence_ppm) ((n + 1) / 2) 0 (inl refl))
