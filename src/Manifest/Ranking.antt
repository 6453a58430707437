-- ===== src/Manifest/Ranking.antt =====
-- pkg/protocol/validate.go: the metric, the milestones and the hard gates of a manifest.
pub mod Read
pub mod Improve
use science_ladder.Base.{
  ◌-◌, Bool, false, ◌&&◌, ◌||◌, not, List, [], ◌∷◌, ltb, if◌then◌else◌, Bytes, is_empty, is_in,
  text_eq, length, Result, ok, message, ◌>>=◌, ◌>>◌, reject_if, is_ok,
}
use science_ladder.Base.Int.{ℤ, pos, ltb_ℤ, ◌-ℤ◌, neg}
use science_ladder.Ticks.{parse_ticks}
use science_ladder.Decimal.{decimal}
use science_ladder.Metric.{Metric, is_maximize, is_minimize}
use science_ladder.Score.{require, is_positive}
use science_ladder.Evaluation.{is_identifier}
use science_ladder.Manifest.{Milestone}

unfoldable pub check_domain_bound : Bytes → Result (Unit {0})
unfolding parse_ticks
check_domain_bound bound =
    reject_if (not (is_empty bound) && not (is_ok (parse_ticks bound)))
      (message "invalid metric domain")

-- `cmp, _ := CompareTicks(…)`, which is 0 where a text is no number.
abbrev pub is_less : Result ℤ → Result ℤ → Bool
is_less (ok a) (ok b) = ltb_ℤ a b
is_less _ _ = false

-- The metric; the answer is the baseline and the minimum delta.
unfoldable pub validate_metric : Metric → Result (ℤ × ℤ)
unfolding decimal parse_ticks is_maximize is_minimize check_domain_bound
validate_metric m = do
  reject_if (is_empty m.name || is_empty m.unit) (message "metric name and unit required")
  require (decimal m.quantum) (λ q. not (is_positive q.num)) (message "invalid quantum")
  reject_if (not (is_maximize m.direction) && not (is_minimize m.direction))
      (message "metric direction must be maximize or minimize")
  baseline ← parse_ticks m.baseline_ticks
  minimum ←
      require (parse_ticks m.minimum_delta_ticks) (λ d. not (is_positive d))
        (message "minimum delta must be positive integer ticks")
  require (parse_ticks m.tolerance_ticks) (λ t. ltb_ℤ t (pos 0))
      (message "tolerance must be nonnegative ticks")
  check_domain_bound m.domain_min_ticks
  check_domain_bound m.domain_max_ticks
  reject_if
      (not (is_empty m.domain_min_ticks)
        && not (is_empty m.domain_max_ticks)
        && not (is_less (parse_ticks m.domain_min_ticks) (parse_ticks m.domain_max_ticks)))
      (message "metric domain must increase")
  ok (baseline, minimum)

-- How much better the ticks are than those before.
abbrev pub gain : Bytes → ℤ → ℤ → ℤ
gain direction ticks before =
    if is_minimize direction then neg (ticks -ℤ before) else ticks -ℤ before

-- The loop over the milestones; `previous` is the threshold before.
module _ (direction : Bytes) (baseline minimum : ℤ) where
  unfoldable pub check_milestones : List Bytes → ℤ → List Milestone → Result (Unit {0})
  unfolding is_identifier parse_ticks ◌-ℤ◌ neg is_minimize text_eq
  check_milestones ids previous [] = ok tt
  check_milestones ids previous (a ∷ rest) = do
    reject_if
        (not (is_identifier a.id) || is_in a.id ids || is_empty a.title || is_empty a.rationale)
        (message "invalid or duplicate milestone")
    ticks ← parse_ticks a.threshold_ticks
    reject_if (not (ltb_ℤ (pos 0) (gain direction ticks previous)))
        (message "milestone thresholds must strictly improve")
    reject_if (ltb_ℤ (gain direction ticks baseline) minimum)
        (message "milestone below meaningful delta")
    check_milestones (a.id ∷ ids) ticks rest

unfoldable pub validate_milestones : Metric → ℤ → ℤ → List Milestone → Result (Unit {0})
unfolding check_milestones
validate_milestones m baseline minimum milestones = do
  reject_if (is_empty milestones || ltb 50 (length milestones))
      (message "one to fifty milestones required")
  check_milestones m.direction baseline minimum [] baseline milestones

unfoldable pub check_gates : List Bytes → List Bytes → Result (Unit {0})
unfolding is_identifier text_eq
check_gates seen [] = ok tt
check_gates seen (g ∷ gs) = do
  reject_if (not (is_identifier g) || is_in g seen) (message "invalid or duplicate hard gate")
  check_gates (g ∷ seen) gs

unfoldable pub validate_gates : List Bytes → Result (Unit {0})
unfolding check_gates
validate_gates gates = do
  reject_if (is_empty gates || ltb 32 (length gates))
      (message "one to thirty-two hard gates required")
  check_gates [] gates
