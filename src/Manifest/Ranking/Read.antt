-- ===== src/Manifest/Ranking/Read.antt =====
-- What an accepted manifest says of its metric and of the list of its milestones.
use science_ladder.Base.{
  ◌≡◌, inl, inr, sym, ap, ◌∙◌, Bool, false, ◌&&◌, ◌||◌, not, Option, [], arith, ltb, if◌then◌else◌,
  Bool-cases, Bytes, is_empty, length, Result, ok, err, Error, >>=-eq-ok, ok_inj, passed_guard,
  passed_check, subst,
}
use science_ladder.Base.Int.{ℤ, pos, ltb_ℤ}
use science_ladder.Ticks.{parse_ticks}
use science_ladder.Decimal.{decimal}
use science_ladder.Manifest.{Manifest, manifest_verification_policy}
use science_ladder.Manifest.Ranking.{
  check_milestones, validate_metric, validate_milestones, check_domain_bound, is_less,
}
use science_ladder.Manifest.Validate.{
  validate_ranking, validate_manifest, validate_version, validate_science, bad_identity, is_policy,
}
use science_ladder.Manifest.Sources.{Url}
use science_ladder.Artifacts.{Unicode}
use science_ladder.Score.{require, is_positive}
use science_ladder.Metric.{Metric, is_maximize, is_minimize}

require-ok {ℓ} :
    {A : Type ℓ} (answer : Result A) (bad : A → Bool) (e : Error) {a : A}
    → require answer bad e ≡ ok a
    → (answer ≡ ok a) × (bad a ≡ false)
require-ok (err why) bad e h = cc
require-ok (ok x) bad e {a} h = elim (Bool-cases (bad x)) [
  | inl b ↦ absurd (ground (arith, b, h))
  | inr b ↦
      let same : ok x ≡ ok a = sym (ap (λ (t : Bool). if t then err e else ok x) b) ∙ h in
      (same, subst (λ v. bad v ≡ false) (ok_inj same) b)
]

-- What the metric's validation says of the baseline and the minimum delta.
pub metric_read :
    (m : Metric) {baseline minimum : ℤ}
    → validate_metric m ≡ ok (baseline, minimum)
    → (not (is_maximize m.direction) && not (is_minimize m.direction) ≡ false)
      × (parse_ticks m.baseline_ticks ≡ ok baseline)
      × (parse_ticks m.minimum_delta_ticks ≡ ok minimum)
      × (not (is_positive minimum) ≡ false)
unfolding validate_metric
metric_read m {baseline} {minimum} h =
    let (_, h1) = passed_guard (is_empty m.name || is_empty m.unit) _ h in
    let (_, _, h2) =
      >>=-eq-ok (require (decimal m.quantum) (λ q. not (is_positive q.num)) _) _ h1 in
    let (known, h3) =
      passed_guard (not (is_maximize m.direction) && not (is_minimize m.direction)) _ h2 in
    let (b, base, h4) = >>=-eq-ok (parse_ticks m.baseline_ticks) _ h3 in
    let (d, delta, h5) =
      >>=-eq-ok (require (parse_ticks m.minimum_delta_ticks) (λ d. not (is_positive d)) _) _ h4 in
    let (_, _, h6) =
      >>=-eq-ok (require (parse_ticks m.tolerance_ticks) (λ t. ltb_ℤ t (pos 0)) _) _ h5 in
    let (_, h7) = passed_check (check_domain_bound m.domain_min_ticks) h6 in
    let (_, h8) = passed_check (check_domain_bound m.domain_max_ticks) h7 in
    let (_, h9) =
      passed_guard
        (not (is_empty m.domain_min_ticks)
          && not (is_empty m.domain_max_ticks)
          && not (is_less (parse_ticks m.domain_min_ticks) (parse_ticks m.domain_max_ticks)))
        _ h8 in
    let (read, positive) =
      require-ok (parse_ticks m.minimum_delta_ticks) (λ d. not (is_positive d)) _ delta in
    facts b d baseline minimum known base read positive (ok_inj h9)
  where
    facts :
        (b d baseline minimum : ℤ)
        → not (is_maximize m.direction) && not (is_minimize m.direction) ≡ false
        → parse_ticks m.baseline_ticks ≡ ok b
        → parse_ticks m.minimum_delta_ticks ≡ ok d
        → not (is_positive d) ≡ false
        → ◌≡◌ {A = ℤ × ℤ} (b, d) (baseline, minimum)
        → (not (is_maximize m.direction) && not (is_minimize m.direction) ≡ false)
          × (parse_ticks m.baseline_ticks ≡ ok baseline)
          × (parse_ticks m.minimum_delta_ticks ≡ ok minimum)
          × (not (is_positive minimum) ≡ false)
    facts b d baseline minimum known base read positive same =
        let low = ap (λ (p : ℤ × ℤ). p.0) same in
        let high = ap (λ (p : ℤ × ℤ). p.1) same in
        (
          known,
          base ∙ ap ok low,
          read ∙ ap ok high,
          subst (λ (z : ℤ). not (is_positive z) ≡ false) high positive,
        )

pub ranking_read :
    (m : Manifest)
    → validate_ranking m ≡ ok tt
    → (baseline : ℤ) × (minimum : ℤ) × (validate_metric m.metric ≡ ok (baseline, minimum))
      × (check_milestones m.metric.direction baseline minimum [] baseline m.milestones ≡ ok tt)
unfolding validate_ranking validate_milestones
ranking_read m h =
    let (bd, read, h1) = >>=-eq-ok (validate_metric m.metric) _ h in
    let (climbs, _) = passed_check (validate_milestones m.metric bd.0 bd.1 m.milestones) h1 in
    let (_, loop) = passed_guard (is_empty m.milestones || ltb 50 (length m.milestones)) _ climbs in
    (bd.0, bd.1, read, loop)

pub manifest_ranking :
    (parse_url : Bytes → Option Url) (u : Unicode) (m : Manifest)
    → validate_manifest parse_url u m ≡ ok tt
    → validate_ranking m ≡ ok tt
unfolding validate_manifest
manifest_ranking parse_url u m h =
    let (_, h1) =
      passed_guard (not (is_policy (manifest_verification_policy m.verification_policy))) _ h in
    let (_, h2) = passed_guard (bad_identity m) _ h1 in
    let (_, h3) = passed_check (validate_version u m) h2 in
    let (_, h4) = passed_check (validate_science parse_url u m) h3 in
    let (ranking, _) = passed_check (validate_ranking m) h4 in ranking
