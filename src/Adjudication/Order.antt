-- ===== src/Adjudication/Order.antt =====
-- Submissions are settled in the order of their sequence numbers, with no gap, and the loop ends.
use science_ladder.Base.{
  ℕ, ◌+◌, ◌≤◌, ◌<◌, ◌≡◌, ◌≢◌, inl, inr, refl, ap, Bool, true, false, ◌&&◌, not, Option, none, some,
  List, [], ◌∷◌, arith, ◌==◌, if◌then◌else◌, Bool-cases, ==_iff, Bytes, text, is_none, text_eq,
  text_eq_refl, Result, ok, err,
}
use science_ladder.Adjudication.Rows.{Submission, Db, Env}
use science_ladder.Manifest.{Manifest}
use science_ladder.Adjudication.Judge.{Standing, Verdict, judge, next_standing}
use science_ladder.Adjudication.Write.{find_sequence, write, written, finalize_row, finalize_one}
use science_ladder.Adjudication.Run.{stop, round, is_validated, start, adjudicate, highest}
use science_ladder.Adjudication.Steps.{Went, write-Wrote, adjudicate_induction, Ended}
use mathlib.Core.Option
use science_ladder.Adjudication.Run.{visit, judged, round_of}

-- The row was settled: it is final and names its adjudication receipt.
abbrev pub is_settled : Submission → Bool
is_settled ss = text_eq ss.status (text "finalized") && not (is_none ss.adjudication)

abbrev pub settled_at : Option Submission → Bool
settled_at none = false
settled_at (some ss) = is_settled ss

map_if :
    (f : Submission → Submission) (b : Bool) (r : Submission) (o : Option Submission)
    → (if b then some (f r) else Option.map f o) ≡ Option.map f (if b then some r else o)
map_if f true r o = refl
map_if f false r o = refl

module _ (id : Bytes) (publish : Bool) (digest : Bytes) where
  sequence-finalize_one :
      (s : Submission) → (finalize_one id publish digest s).sequence ≡ s.sequence
  unfolding finalize_one
  sequence-finalize_one s = elim (Bool-cases (text_eq s.id id)) [ inl e ↦ rw e | inr e ↦ rw e ]

  is_settled-finalize_one :
      (s : Submission) → s.id ≡ id → is_settled (finalize_one id publish digest s) ≡ true
  unfolding finalize_one
  is_settled-finalize_one s e = rw (e, text_eq_refl id) (unfold text_eq in refl)

  finalize_one-is_settled :
      (s : Submission) → is_settled s ≡ true → is_settled (finalize_one id publish digest s) ≡ true
  unfolding finalize_one
  finalize_one-is_settled s h = elim (Bool-cases (text_eq s.id id)) [
    | inl e ↦ rw e (unfold text_eq in refl)
    | inr e ↦ rw e h
  ]

  -- A row is found under its number as before, and updated.
  pub find_sequence-finalize_row :
      (n : ℕ) (rows : List Submission)
      → find_sequence n (finalize_row id publish digest rows)
        ≡ Option.map (finalize_one id publish digest) (find_sequence n rows)
  unfolding finalize_row find_sequence
  find_sequence-finalize_row n [] = refl
  find_sequence-finalize_row n (r ∷ rows) =
      simp (sequence-finalize_one r, find_sequence-finalize_row n rows)
        (map_if (finalize_one id publish digest) (r.sequence == n) r (find_sequence n rows))

  pub highest-finalize_row :
      (rows : List Submission) → highest (finalize_row id publish digest rows) ≡ highest rows
  unfolding finalize_row
  highest-finalize_row [] = refl
  highest-finalize_row (r ∷ rows) = rw (sequence-finalize_one r, highest-finalize_row rows)

  settled-map :
      (o : Option Submission)
      → settled_at o ≡ true
      → settled_at (Option.map (finalize_one id publish digest) o) ≡ true
  settled-map none h = cc
  settled-map (some s) h = finalize_one-is_settled s h

pub le-highest :
    (n : ℕ) (rows : List Submission) (ss : Submission)
    → find_sequence n rows ≡ some ss
    → n ≤ highest rows
unfolding find_sequence
le-highest n [] ss h = cc
le-highest n (r ∷ rows) ss h = ground (arith, le-highest n rows ss)

-- Every number after the old watermark, up to the new one, belongs to a settled submission.
abbrev pub SettledUpTo : ℕ → ℕ → List Submission → Type 0
SettledUpTo old new rows = (n : ℕ) → old < n → n ≤ new → settled_at (find_sequence n rows) ≡ true

finalize_row-SettledUpTo :
    (publish : Bool) (digest : Bytes) (old w : ℕ) (rows : List Submission) (ss : Submission)
    → find_sequence (w + 1) rows ≡ some ss
    → SettledUpTo old w rows
    → SettledUpTo old (w + 1) (finalize_row ss.id publish digest rows)
finalize_row-SettledUpTo publish digest old w rows ss found h n p q =
    elim (Bool-cases (n == (w + 1))) [
      | inl e ↦
          let here : n ≡ w + 1 = (==_iff n (w + 1)).0 e in
          rw (here, find_sequence-finalize_row ss.id publish digest (w + 1) rows, found)
            (is_settled-finalize_one ss.id publish digest ss refl)
      | inr e ↦
          rw (find_sequence-finalize_row ss.id publish digest n rows)
            (settled-map ss.id publish digest (find_sequence n rows) (h n p (ground arith)))
    ]

Went-SettledUpTo :
    (env : Env) (m : Manifest) (old : ℕ) (db db' : Db) (s s' : Standing)
    → Went env m db s db' s'
    → SettledUpTo old s.watermark db.submissions
    → SettledUpTo old s'.watermark db'.submissions
unfolding written next_standing
Went-SettledUpTo env m old db db' s s' w h =
    let x = write-Wrote _ _ _ _ _ w.done in
    rw (w.standing, x.rows)
      (finalize_row-SettledUpTo w.verdict.publish x.digest old s.watermark db.submissions w.ss
        w.found h)

-- Where the loop stops: at a number that is not there, or at a submission that still waits.
abbrev pub waits : Option Submission → Bool
waits none = true
waits (some ss) = not (is_validated ss)

round_of-ne-stop :
    (s : Standing) (ss : Submission) (v : Verdict) (r : Result Db) → round_of s ss v r ≢ stop
round_of-ne-stop s ss v (err e) h = cc
round_of-ne-stop s ss v (ok db) h = cc

judged-ne-stop :
    (env : Env) (db : Db) (s : Standing) (ss : Submission) (r : Result Verdict)
    → judged env db s ss r ≢ stop
judged-ne-stop env db s ss (err e) h = cc
judged-ne-stop env db s ss (ok v) h =
    round_of-ne-stop s ss v (write env db (s.watermark + 1) ss v) h

visit_stops :
    (env : Env) (m : Manifest) (db : Db) (s : Standing) (o : Option Submission)
    → visit env m db s o ≡ stop
    → waits o ≡ true
visit_stops env m db s none h = refl
visit_stops env m db s (some ss) h =
    ground (arith, judged-ne-stop env db s ss (judge env m s db.tiers db.claims ss))

round_stops :
    (env : Env) (m : Manifest) (db : Db) (s : Standing)
    → round env m db s ≡ stop
    → waits (find_sequence (s.watermark + 1) db.submissions) ≡ true
unfolding round
round_stops env m db s h = visit_stops env m db s (find_sequence (s.watermark + 1) db.submissions) h

start-watermark :
    (m : Manifest) (db : Db) (s : Standing) → start m db ≡ ok s → s.watermark ≡ db.watermark
unfolding start
start-watermark m db s h = ground arith

no_gap : (w : ℕ) (rows : List Submission) → SettledUpTo w w rows
no_gap w rows n p q = absurd (omega arith)

Settles : Db → Db → Standing → Type 0
Settles db d s = SettledUpTo db.watermark s.watermark d.submissions

ended :
    (env : Env) (m : Manifest) (db : Db) {db' : Db}
    → adjudicate env m db ≡ some (ok db')
    → Ended env m (Settles db) db'
unfolding Settles
ended env m db h =
    adjudicate_induction env m (Settles db) (Went-SettledUpTo env m db.watermark) db
      (λ s p. rw (start-watermark m db s p) (no_gap db.watermark db.submissions)) h

-- After a call that succeeds, every sequence number above the old watermark and up to the new one
-- belongs to a submission that is final and names an adjudication receipt: none is skipped.
pub adjudicate-settled :
    (env : Env) (m : Manifest) (db : Db) {db' : Db} (n : ℕ)
    → adjudicate env m db ≡ some (ok db')
    → db.watermark < n
    → n ≤ db'.watermark
    → settled_at (find_sequence n db'.submissions) ≡ true
unfolding Settles
adjudicate-settled env m db n h p q =
    let e = ended env m db h in
    let upto : n ≤ e.to.watermark = rw (← ap (λ (d : Db). d.watermark) e.stored) q in
    rw e.stored (e.holds n p upto)

-- After a call that succeeds, the number behind the watermark belongs to no submission, or to one
-- that is not validated.
pub adjudicate-waits :
    (env : Env) (m : Manifest) (db : Db) {db' : Db}
    → adjudicate env m db ≡ some (ok db')
    → waits (find_sequence (db'.watermark + 1) db'.submissions) ≡ true
adjudicate-waits env m db h =
    let e = ended env m db h in rw e.stored (round_stops env m e.last e.to e.stopped)
