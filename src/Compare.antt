-- ===== src/Compare.antt =====
-- internal/platform/adjudication.go: the comparisons that rank accepted scores. They read ticks by
-- `SetString`, which is laxer than `ParseTicks`, and take every direction that is not `maximize`
-- for `minimize`.
pub mod Agree
use science_ladder.Base.{
  ◌-◌, Bool, false, Option, none, some, if◌then◌else◌, Bytes, Result, ok, err, message, String,
}
use science_ladder.Base.Int.{ℤ, pos, abs_ℕ, ltb_ℤ, leb_ℤ, ◌-ℤ◌, neg}
use science_ladder.Ticks.{set_string}
use science_ladder.Metric.{Metric, is_maximize, is_minimize}

-- `x, ok := SetString(a); if !ok { return d }; y, ok := …`
abbrev pub with_two {ℓ} : {A : Type ℓ} → Option ℤ → Option ℤ → A → (ℤ → ℤ → A) → A
with_two none y d use_both = d
with_two (some x) none d use_both = d
with_two (some x) (some y) d use_both = use_both x y

unfoldable pub better : Bytes → Bytes → Bytes → Bool
better a b direction =
    with_two (set_string a) (set_string b) false
      λ x y. if is_maximize direction then ltb_ℤ y x else ltb_ℤ x y

unfoldable pub crosses : Bytes → Bytes → Bytes → Bool
crosses score threshold direction =
    with_two (set_string score) (set_string threshold) false
      λ x y. if is_maximize direction then leb_ℤ y x else leb_ℤ x y

abbrev pub meets_delta : Option ℤ → ℤ → Bool
meets_delta none x = false
meets_delta (some d) x = leb_ℤ d x

unfoldable pub meaningful : Bytes → Bytes → Metric → Bool
meaningful score prior m = with_two (set_string score) (set_string prior) false λ x y.
    meets_delta (set_string m.minimum_delta_ticks)
      (if is_minimize m.direction then neg (x -ℤ y) else x -ℤ y)

abbrev pub read_or {ℓ} : {A : Type ℓ} → Option ℤ → String → (ℤ → Result A) → Result A
read_or none e use_value = err (message e)
read_or (some x) e use_value = use_value x

unfoldable pub confirmed_score : Bytes → Bytes → Metric → Result Bytes
unfolding better
confirmed_score a b m = read_or (set_string a) "invalid primary ticks" λ x.
    read_or (set_string b) "invalid confirmation ticks" λ y.
      read_or (set_string m.tolerance_ticks) "invalid tolerance ticks" λ t.
        if ltb_ℤ t (pos (abs_ℕ (x -ℤ y)))
        then err (message "independent runs disagree beyond tolerance")
        else if better a b m.direction
        then ok b
        else ok a
