-- ===== src/Manifest/Ranking/Improve.antt =====
-- What the milestones of a manifest promise to those who compare scores with them.
use science_ladder.Base.{
  ◌≡◌, inl, inr, true, false, ◌&&◌, ◌||◌, not, Option, List, [], ◌∷◌, arith, Bool-cases, In, first,
  later, Result-cases, Bytes, is_empty, is_in, ok, >>=-eq-ok, was_true, passed_guard,
}
use science_ladder.Base.Int.{ℤ, pos, ltb_ℤ, ◌-ℤ◌, -ℤ_parts, neg_parts}
use science_ladder.Ticks.{parse_ticks}
use science_ladder.Evaluation.{is_identifier}
use science_ladder.Manifest.{Milestone, Manifest}
use science_ladder.Manifest.Ranking.{gain, check_milestones}
use science_ladder.Manifest.Validate.{validate_manifest}
use science_ladder.Manifest.Sources.{Url}
use science_ladder.Artifacts.{Unicode}
use science_ladder.Score.{is_positive, qualifies}
use science_ladder.Metric.{Metric, is_maximize, is_minimize, not_both}
use science_ladder.Frontier.{frontier_improvement}
use science_ladder.Manifest.Ranking.Read.{metric_read, ranking_read, manifest_ranking}

-- In the list, `a` stands before `b`.
pub data Before (a b : Milestone) : List Milestone → Type 0 where
  starts : {rest : List Milestone} → In b rest → Before a b (a ∷ rest)
  follows : {x : Milestone} {rest : List Milestone} → Before a b rest → Before a b (x ∷ rest)

abbrev IsGain : Bytes → ℤ → ℤ → Type 0
IsGain direction t before = ltb_ℤ (pos 0) (gain direction t before) ≡ true

IsGain-trans :
    (direction : Bytes) (a b c : ℤ)
    → IsGain direction b a
    → IsGain direction c b
    → IsGain direction c a
IsGain-trans direction a b c h k = elim (Bool-cases (is_minimize direction)) [
  | inl e ↦ ground (
    arith,
    e,
    h,
    k,
    -ℤ_parts b a,
    -ℤ_parts c b,
    -ℤ_parts c a,
    neg_parts (b -ℤ a),
    neg_parts (c -ℤ b),
    neg_parts (c -ℤ a),
  )
  | inr e ↦ ground (arith, e, h, k, -ℤ_parts b a, -ℤ_parts c b, -ℤ_parts c a)
]

-- What the loop has checked of a milestone whose threshold reads as `t`.
abbrev Reads : Bytes → ℤ → ℤ → ℤ → Milestone → Type 0
Reads direction baseline minimum previous a =
    (t : ℤ) × (parse_ticks a.threshold_ticks ≡ ok t)
    × IsGain direction t previous
    × (ltb_ℤ (gain direction t baseline) minimum ≡ false)

module _ (direction : Bytes) (baseline minimum : ℤ) where
  step :
      (ids : List Bytes) (previous : ℤ) (a : Milestone) (rest : List Milestone)
      → check_milestones direction baseline minimum ids previous (a ∷ rest) ≡ ok tt
      → (t : ℤ) × (parse_ticks a.threshold_ticks ≡ ok t)
        × IsGain direction t previous
        × (ltb_ℤ (gain direction t baseline) minimum ≡ false)
        × (check_milestones direction baseline minimum (a.id ∷ ids) t rest ≡ ok tt)
  unfolding check_milestones
  step ids previous a rest h =
      let (_, h1) =
        passed_guard
          (not (is_identifier a.id) || is_in a.id ids || is_empty a.title || is_empty a.rationale) _
          h in
      let (t, read, h2) = >>=-eq-ok (parse_ticks a.threshold_ticks) _ h1 in
      let (up, h3) = passed_guard (not (ltb_ℤ (pos 0) (gain direction t previous))) _ h2 in
      let (far, h4) = passed_guard (ltb_ℤ (gain direction t baseline) minimum) _ h3 in
      (t, read, was_true (ltb_ℤ (pos 0) (gain direction t previous)) up, far, h4)

  reads :
      (ids : List Bytes) (previous : ℤ) (b : Milestone) (ms : List Milestone)
      → check_milestones direction baseline minimum ids previous ms ≡ ok tt
      → In b ms
      → Reads direction baseline minimum previous b
  reads ids previous b [] h i = elim i [ ]
  reads ids previous b (x ∷ rest) h first =
      let (t, read, up, far, _) = step ids previous x rest h in (t, read, up, far)
  reads ids previous b (x ∷ rest) h (later i) =
      let (s, _, up, _, more) = step ids previous x rest h in
      let (t, read, up', far) = reads (x.id ∷ ids) s b rest more i in
      (t, read, IsGain-trans direction previous s t up up', far)

  climb :
      (ids : List Bytes) (previous : ℤ) (a b : Milestone) (ms : List Milestone)
      → check_milestones direction baseline minimum ids previous ms ≡ ok tt
      → Before a b ms
      → (s : ℤ) × (t : ℤ) × (parse_ticks a.threshold_ticks ≡ ok s)
        × (parse_ticks b.threshold_ticks ≡ ok t)
        × IsGain direction t s
  climb ids previous a b [] h i = elim i [ ]
  climb ids previous a b (x ∷ rest) h (starts i) =
      let (s, read, _, _, more) = step ids previous x rest h in
      let (t, read', up, _) = reads (x.id ∷ ids) s b rest more i in (s, t, read, read', up)
  climb ids previous a b (x ∷ rest) h (follows i) =
      let (s, _, _, _, more) = step ids previous x rest h in climb (x.id ∷ ids) s a b rest more i

far_improves :
    (score prior : Bytes) (m : Metric) (x y d : ℤ)
    → parse_ticks score ≡ ok x
    → parse_ticks prior ≡ ok y
    → parse_ticks m.minimum_delta_ticks ≡ ok d
    → not (is_maximize m.direction) && not (is_minimize m.direction) ≡ false
    → not (is_positive d) ≡ false
    → ltb_ℤ (gain m.direction x y) d ≡ false
    → frontier_improvement score prior m ≡ true
unfolding frontier_improvement
far_improves score prior m x y d score_read prior_read delta_read known positive far = ground arith

-- In a manifest that is accepted, the threshold of every milestone is a frontier improvement on the
-- frozen baseline: it lies beyond it by the meaningful delta at least.
pub validate_manifest-frontier_improvement :
    (parse_url : Bytes → Option Url) (u : Unicode) (m : Manifest) (a : Milestone)
    → validate_manifest parse_url u m ≡ ok tt
    → In a m.milestones
    → frontier_improvement a.threshold_ticks m.metric.baseline_ticks m.metric ≡ true
validate_manifest-frontier_improvement parse_url u m a h i =
    let (b, d, metric, loop) = ranking_read m (manifest_ranking parse_url u m h) in
    let (known, base, delta, positive) = metric_read m.metric metric in
    let (t, read, _, far) = reads m.metric.direction b d [] b a m.milestones loop i in
    far_improves a.threshold_ticks m.metric.baseline_ticks m.metric t b d read base delta known
      positive far

qualifies_before :
    (score one other direction : Bytes) (s t : ℤ)
    → parse_ticks one ≡ ok s
    → parse_ticks other ≡ ok t
    → IsGain direction t s
    → qualifies score other direction ≡ ok true
    → qualifies score one direction ≡ ok true
unfolding qualifies
qualifies_before score one other direction s t one_read other_read up h =
    elim (Result-cases (parse_ticks score)) [
      | inl r ↦ reached r.0 r.1
      | inr e ↦ absurd (let a = e.1 in ground (arith, a, h))
    ]
  where
    reached : (x : ℤ) → parse_ticks score ≡ ok x → qualifies score one direction ≡ ok true
    reached x read = ground (arith, -ℤ_parts t s, neg_parts (t -ℤ s), not_both direction)

-- In a manifest that is accepted, a score that reaches a milestone reaches every milestone that
-- stands before it.
pub validate_manifest-qualifies :
    (parse_url : Bytes → Option Url) (u : Unicode) (m : Manifest) (a b : Milestone) (score : Bytes)
    → validate_manifest parse_url u m ≡ ok tt
    → Before a b m.milestones
    → qualifies score b.threshold_ticks m.metric.direction ≡ ok true
    → qualifies score a.threshold_ticks m.metric.direction ≡ ok true
validate_manifest-qualifies parse_url u m a b score h i q =
    let (base, d, _, loop) = ranking_read m (manifest_ranking parse_url u m h) in
    let (s, t, read, read', up) = climb m.metric.direction base d [] base a b m.milestones loop i in
    qualifies_before score a.threshold_ticks b.threshold_ticks m.metric.direction s t read read' up
      q
