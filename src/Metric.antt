-- ===== src/Metric.antt =====
-- pkg/protocol/types.go: `Metric`, and the directions that pkg/protocol/scores.go knows.
use science_ladder.Base.{◌≡◌, refl, Bool, true, false, Bytes, text, text_eq, text_eq→eq}

pub record Metric : Type 0 where
  pub name : Bytes
  pub direction : Bytes
  pub unit : Bytes
  pub quantum : Bytes
  pub baseline_ticks : Bytes
  pub minimum_delta_ticks : Bytes
  pub tolerance_ticks : Bytes
  pub domain_min_ticks : Bytes
  pub domain_max_ticks : Bytes

abbrev pub maximize : Bytes
maximize = text "maximize"

abbrev pub minimize : Bytes
minimize = text "minimize"

-- The tests `direction == "maximize"` and `direction == "minimize"`.
unfoldable pub is_maximize : Bytes → Bool
unfolding text_eq
is_maximize d = text_eq d maximize

unfoldable pub is_minimize : Bytes → Bool
unfolding text_eq
is_minimize d = text_eq d minimize

pub not_both : (d : Bytes) → is_maximize d ≡ true → is_minimize d ≡ false
unfolding is_maximize is_minimize
not_both d h = rw (text_eq→eq d maximize h)

pub is_maximize-maximize : is_maximize maximize ≡ true
unfolding is_maximize
is_maximize-maximize = refl

pub is_minimize-minimize : is_minimize minimize ≡ true
unfolding is_minimize
is_minimize-minimize = refl
