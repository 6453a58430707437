-- ===== src/Adjudication/Verdict.antt =====
-- The verdict on a submission, taken apart.
use science_ladder.Base.{
  ◌≡◌, ◌⊎◌, inl, inr, refl, sym, ap, ◌∙◌, true, Option, none, some, List, Bool-cases, some_inj,
  Bytes, ok, >>=-eq-ok,
}
use science_ladder.Adjudication.Rows.{Submission, Tier, Claim, Env}
use science_ladder.Manifest.{Manifest}
use science_ladder.Results.{RunReceipt}
use science_ladder.Adjudication.Judge.{
  Standing, Verdict, judge, is_valid, crossed, judge_score, scored_verdict, plain_verdict,
}
use science_ladder.Adjudication.Write.{is_member}
use mathlib.Core.Bool.{false≢true}
use science_ladder.Adjudication.Judge.{by_score, measured}

judge_score-ok :
    (env : Env) (m : Manifest) (s : Standing) (tiers : List Tier) (claims : List Claim)
    (ss : Submission) (score : Bytes) {v : Verdict}
    → judge_score env m s tiers claims ss score ≡ ok v
    → (runs : List RunReceipt) × (measured env m ss ≡ ok runs)
      × (crossed env m score runs claims tiers ≡ ok v.milestones)
      × (v ≡ scored_verdict m s ss score v.milestones)
judge_score-ok env m s tiers claims ss score {v} h =
    let (runs, read, h₁) = >>=-eq-ok (measured env m ss) _ h in
    let (mids, over, h₂) = >>=-eq-ok (crossed env m score runs claims tiers) _ h₁ in
    let same : scored_verdict m s ss score mids ≡ v = cc in
    let listed : mids ≡ v.milestones = ap (λ (x : Verdict). x.milestones) same in
    (runs, read, over ∙ ap ok listed, sym same ∙ ap (scored_verdict m s ss score) listed)

by_score-ok :
    (env : Env) (m : Manifest) (s : Standing) (tiers : List Tier) (claims : List Claim)
    (ss : Submission) (o : Option Bytes) {v : Verdict} {score : Bytes}
    → o ≡ some score
    → by_score env m s tiers claims ss o ≡ ok v
    → (runs : List RunReceipt) × (measured env m ss ≡ ok runs)
      × (crossed env m score runs claims tiers ≡ ok v.milestones)
      × (v ≡ scored_verdict m s ss score v.milestones)
by_score-ok env m s tiers claims ss none e h = cc
by_score-ok env m s tiers claims ss (some x) {score} e h =
    judge_score-ok env m s tiers claims ss score
      (ap (judge_score env m s tiers claims ss) (sym (some_inj e)) ∙ h)

-- A valid submission with a score is judged by it.
pub judge_scored :
    (env : Env) (m : Manifest) (s : Standing) (tiers : List Tier) (claims : List Claim)
    (ss : Submission) {v : Verdict} {score : Bytes}
    → is_valid ss.outcome ≡ true
    → ss.score ≡ some score
    → judge env m s tiers claims ss ≡ ok v
    → (runs : List RunReceipt) × (measured env m ss ≡ ok runs)
      × (crossed env m score runs claims tiers ≡ ok v.milestones)
      × (v ≡ scored_verdict m s ss score v.milestones)
unfolding judge
judge_scored env m s tiers claims ss good has h =
    by_score-ok env m s tiers claims ss ss.score has (rw good at h)

by_score-cases :
    (env : Env) (m : Manifest) (s : Standing) (tiers : List Tier) (claims : List Claim)
    (ss : Submission) (o : Option Bytes) {v : Verdict}
    → by_score env m s tiers claims ss o ≡ ok v
    → (v ≡ plain_verdict ss) ⊎ ((score : Bytes) × (o ≡ some score))
by_score-cases env m s tiers claims ss none h = inl (cc)
by_score-cases env m s tiers claims ss (some x) h = inr (x, refl)

-- Any other claims nothing and ranks nowhere.
pub judge_other :
    (env : Env) (m : Manifest) (s : Standing) (tiers : List Tier) (claims : List Claim)
    (ss : Submission) {v : Verdict}
    → judge env m s tiers claims ss ≡ ok v
    → (v ≡ plain_verdict ss)
      ⊎ ((is_valid ss.outcome ≡ true) × (score : Bytes) × (ss.score ≡ some score))
unfolding judge
judge_other env m s tiers claims ss {v} h = elim (Bool-cases (is_valid ss.outcome)) [
  | inl good ↦ elim (by_score-cases env m s tiers claims ss ss.score (rw good at h)) [
    | inl plain ↦ inl plain
    | inr (score, has) ↦ inr (good, score, has)
  ]
  | inr bad ↦ let same : ok (plain_verdict ss) ≡ ok v = rw bad at h in inl (cc)
]

-- What a submission claims, it crosses with its score.
pub judge_lists :
    (env : Env) (m : Manifest) (s : Standing) (tiers : List Tier) (claims : List Claim)
    (ss : Submission) {v : Verdict} (mid : Bytes)
    → judge env m s tiers claims ss ≡ ok v
    → is_member mid v.milestones ≡ true
    → (score : Bytes) × (is_valid ss.outcome ≡ true)
      × (ss.score ≡ some score)
      × (runs : List RunReceipt) × (measured env m ss ≡ ok runs)
      × (crossed env m score runs claims tiers ≡ ok v.milestones)
judge_lists env m s tiers claims ss mid h k = elim (judge_other env m s tiers claims ss h) [
  | inl plain ↦
      absurd (false≢true (sym (ap (λ (x : Verdict). is_member mid x.milestones) plain) ∙ k))
  | inr (good, score, has) ↦
      let (runs, read, over, _) = judge_scored env m s tiers claims ss good has h in
      (score, good, has, runs, read, over)
]
