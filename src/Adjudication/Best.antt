-- ===== src/Adjudication/Best.antt =====
-- The verified best never gets worse, and no adjudicated valid score beats it.
use science_ladder.Base.{
  ℕ, ◌+◌, ◌≤◌, ◌<◌, ◌≡◌, ◌⊎◌, inl, inr, sym, ap, ◌∙◌, true, false, some, arith, ◌==◌, Bool-cases,
  some_inj, ==_iff, Bytes, ok,
}
use science_ladder.Adjudication.Rows.{Submission, Db, Env}
use science_ladder.Manifest.{Manifest}
use science_ladder.Adjudication.Judge.{Standing, next_standing, is_valid}
use science_ladder.Adjudication.Write.{find_sequence, written, finalize_one}
use science_ladder.Adjudication.Run.{rounds}
use science_ladder.Adjudication.Steps.{Went, write-Wrote, round-Went, rounds_induction}
use science_ladder.Compare.{better}
use science_ladder.Adjudication.Order.{find_sequence-finalize_row}
use science_ladder.Adjudication.Record.{
  is_read, not_better_self, not_better_trans, pick_new, Went-best, Went-best_scored,
  outcome-finalize_one, score-finalize_one,
}

module _ (env : Env) (m : Manifest) (n : ℕ) (score : Bytes) where
  -- The submission with the number n still waits, valid and with the score.
  Waiting : Db → Standing → Type 0
  Waiting db s =
      (ss : Submission) × (s.watermark < n)
      × (find_sequence n db.submissions ≡ some ss)
      × (is_valid ss.outcome ≡ true)
      × (ss.score ≡ some score)

  -- It waits, or it does not beat the best.
  Beaten : Db → Standing → Type 0
  Beaten db s =
      (is_read s.best ≡ true) × (Waiting db s ⊎ (better score s.best m.metric.direction ≡ false))

  Went-Waiting :
      (db db' : Db) (s s' : Standing)
      → Went env m db s db' s'
      → Waiting db s
      → Waiting db' s' ⊎ (better score s'.best m.metric.direction ≡ false)
  unfolding Waiting written next_standing
  Went-Waiting db db' s s' w (ss, before, found, good, has) =
      elim (Bool-cases (n == (s.watermark + 1))) [
        | inl e ↦
            let now : n ≡ s.watermark + 1 = (==_iff n _).0 e in
            let same : w.ss ≡ ss =
              some_inj
                (sym w.found ∙ ap (λ (k : ℕ). find_sequence k db.submissions) (sym now) ∙ found) in
            inr (
              rw
                (Went-best_scored env m db db' s s' w
                  (ap (λ (x : Submission). is_valid x.outcome) same ∙ good)
                  (ap (λ (x : Submission). x.score) same ∙ has))
                (pick_new m.metric.direction score s.best))
        | inr e ↦
            let x = write-Wrote _ _ _ _ _ w.done in
            let row = finalize_one w.ss.id w.verdict.publish x.digest ss in
            inl (
              row,
              rw w.standing (ground arith),
              rw (x.rows, find_sequence-finalize_row, found),
              ap is_valid (outcome-finalize_one w.ss.id w.verdict.publish x.digest ss) ∙ good,
              score-finalize_one w.ss.id w.verdict.publish x.digest ss ∙ has,
            )
      ]

  Went-Beaten :
      (db db' : Db) (s s' : Standing) → Went env m db s db' s' → Beaten db s → Beaten db' s'
  unfolding Beaten
  Went-Beaten db db' s s' w (r, inl waiting) =
      ((Went-best env m db db' s s' w r).0, Went-Waiting db db' s s' w waiting)
  Went-Beaten db db' s s' w (r, inr beaten) =
      let (r', old) = Went-best env m db db' s s' w r in
      (r', inr (not_better_trans score s.best s'.best m.metric.direction r beaten old))

-- Where the best score reads as a number and the loop ends without an error, the old best does not
-- beat the new one.
pub rounds-best :
    (env : Env) (m : Manifest) (fuel : ℕ) (db db' : Db) (s s' : Standing)
    → is_read s.best ≡ true
    → rounds env m fuel db s ≡ some (ok (db', s'))
    → better s.best s'.best m.metric.direction ≡ false
rounds-best env m fuel db db' s s' r h =
    (rounds_induction env m
      (λ d t. (is_read t.best ≡ true) × (better s.best t.best m.metric.direction ≡ false))
      (λ d d' t t' g p.
        let (read, old) = Went-best env m d d' t t' (round-Went env m d t g) p.0 in
        (read, not_better_trans s.best t.best t'.best m.metric.direction p.0 p.1 old))
      fuel db s db' s' (r, not_better_self s.best m.metric.direction) h).0.1

-- Where the best score reads as a number and the loop ends without an error, the score of no valid
-- submission with a number above the old watermark and up to the new one beats the new best.
pub rounds-best_of_all :
    (env : Env) (m : Manifest) (fuel : ℕ) (db db' : Db) (s s' : Standing) (n : ℕ) (ss : Submission)
    (score : Bytes)
    → is_read s.best ≡ true
    → rounds env m fuel db s ≡ some (ok (db', s'))
    → find_sequence n db.submissions ≡ some ss
    → is_valid ss.outcome ≡ true
    → ss.score ≡ some score
    → s.watermark < n
    → n ≤ s'.watermark
    → better score s'.best m.metric.direction ≡ false
unfolding Beaten Waiting
rounds-best_of_all env m fuel db db' s s' n ss score r h found good has p q =
    let (end_, stopped) =
      rounds_induction env m (Beaten env m n score)
        (λ d d' t t' g b. Went-Beaten env m n score d d' t t' (round-Went env m d t g) b) fuel db s
        db' s' (r, inl (ss, p, found, good, has)) h in
    elim end_.1 [ inl (x, late, f, g, k) ↦ absurd (omega arith) | inr beaten ↦ beaten ]
