-- ===== src/Adjudication/Record.antt =====
-- The best after one round.
use science_ladder.Base.{
  ◌≡◌, inl, inr, refl, ap, ◌∙◌, Bool, true, false, not, Option, some, arith, if◌then◌else◌,
  Bool-cases, Bytes, is_none, text_eq,
}
use science_ladder.Ticks.{set_string}
use science_ladder.Adjudication.Rows.{Submission, Db, Env}
use science_ladder.Manifest.{Manifest}
use science_ladder.Adjudication.Judge.{
  Standing, Verdict, advance_to, next_standing, is_valid, plain_verdict,
}
use science_ladder.Adjudication.Write.{finalize_one}
use science_ladder.Adjudication.Steps.{Went}
use science_ladder.Compare.{better}
use science_ladder.Adjudication.Verdict.{judge_scored, judge_other}

abbrev pub is_read : Bytes → Bool
is_read a = not (is_none (set_string a))

better-is_read : (a b d : Bytes) → better a b d ≡ true → is_read a ≡ true
unfolding better
better-is_read a b d h = ground arith

pub not_better_self : (a d : Bytes) → better a a d ≡ false
unfolding better
not_better_self a d = ground arith

better_asym : (a b d : Bytes) → better a b d ≡ true → better b a d ≡ false
unfolding better
better_asym a b d h = ground arith

-- If neither a beats b nor b beats c, then a does not beat c.
pub not_better_trans :
    (a b c d : Bytes)
    → is_read b ≡ true
    → better a b d ≡ false
    → better b c d ≡ false
    → better a c d ≡ false
unfolding better
not_better_trans a b c d r h k = ground arith

module _ (direction : Bytes) where
  -- Replacing the best by a better score.
  pub pick : Bytes → Bytes → Bytes
  pick score best = if better score best direction then score else best

  pick-is_read : (score best : Bytes) → is_read best ≡ true → is_read (pick score best) ≡ true
  unfolding pick
  pick-is_read score best h = ground (arith, better-is_read score best direction)

  pick_old : (score best : Bytes) → better best (pick score best) direction ≡ false
  unfolding pick
  pick_old score best =
      ground (arith, better_asym score best direction, not_better_self best direction)

  pub pick_new : (score best : Bytes) → better score (pick score best) direction ≡ false
  unfolding pick
  pick_new score best = ground (arith, not_better_self score direction)

advance_to_if :
    (b : Bool) (score best : Bytes) → advance_to b (some score) best ≡ (if b then score else best)
advance_to_if true score best = refl
advance_to_if false score best = refl

module _ (id : Bytes) (publish : Bool) (digest : Bytes) (s : Submission) where
  pub outcome-finalize_one : (finalize_one id publish digest s).outcome ≡ s.outcome
  unfolding finalize_one
  outcome-finalize_one = elim (Bool-cases (text_eq s.id id)) [ inl e ↦ rw e | inr e ↦ rw e ]

  pub score-finalize_one : (finalize_one id publish digest s).score ≡ s.score
  unfolding finalize_one
  score-finalize_one = elim (Bool-cases (text_eq s.id id)) [ inl e ↦ rw e | inr e ↦ rw e ]

module _ (env : Env) (m : Manifest) (db db' : Db) (s s' : Standing)
    (w : Went env m db s db' s') where
  next_best : s'.best ≡ (next_standing s w.ss w.verdict).best
  next_best = ap (λ (t : Standing). t.best) w.standing

  pub Went-best_scored :
      {score : Bytes}
      → is_valid w.ss.outcome ≡ true
      → w.ss.score ≡ some score
      → s'.best ≡ pick m.metric.direction score s.best
  unfolding next_standing pick
  Went-best_scored {score} good has =
      let verdict = (judge_scored env m s db.tiers db.claims w.ss good has w.decided).3 in
      next_best
      ∙ ap (λ (v : Verdict). advance_to v.is_record w.ss.score s.best) verdict
      ∙ ap (λ (o : Option Bytes). advance_to (better score s.best m.metric.direction) o s.best) has
      ∙ advance_to_if (better score s.best m.metric.direction) score s.best

  Went-best_plain : w.verdict ≡ plain_verdict w.ss → s'.best ≡ s.best
  unfolding next_standing
  Went-best_plain plain =
      next_best ∙ ap (λ (v : Verdict). advance_to v.is_record w.ss.score s.best) plain

  -- The best is read and is not beaten by the old one.
  pub Went-best :
      is_read s.best ≡ true
      → (is_read s'.best ≡ true) × (better s.best s'.best m.metric.direction ≡ false)
  Went-best r = elim (judge_other env m s db.tiers db.claims w.ss w.decided) [
    | inl plain ↦ rw (Went-best_plain plain) (r, not_better_self s.best m.metric.direction)
    | inr (good, score, has) ↦
        rw (Went-best_scored good has)
          (pick-is_read m.metric.direction score s.best r, pick_old m.metric.direction score s.best)
  ]
