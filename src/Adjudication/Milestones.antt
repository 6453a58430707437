-- ===== src/Adjudication/Milestones.antt =====
-- Milestones under adjudication.
use science_ladder.Base.{
  inl, inr, ◌+◌, ◌≡◌, refl, sym, ap, ◌∙◌, Bool, true, false, not, Option, none, some, List,
  if◌then◌else◌, some_inj, In, Bytes, is_none, ok, ok_inj,
}
use science_ladder.Adjudication.Rows.{Submission, Tier, Claim, Db, Env}
use science_ladder.Manifest.{Manifest}
use science_ladder.Results.{RunReceipt}
use science_ladder.Adjudication.Judge.{
  Standing, Verdict, judge, is_claimed, is_valid, is_eligible, measured,
}
use science_ladder.Adjudication.Write.{find_sequence, written, is_member, insert_claims}
use science_ladder.Adjudication.Run.{go, round, adjudicate}
use science_ladder.Adjudication.Steps.{Went, write-Wrote, round-Went, adjudicate_induction}
use science_ladder.Compare.{crosses}
use science_ladder.Adjudication.Verdict.{judge_scored, judge_lists, judge_other}
use science_ladder.Adjudication.Claims.{holder, or_else, holder-insert_claims, is_claimed-holder}
use science_ladder.Adjudication.Crossed.{
  IsDistinct, crossed-member, member-crossed, crossed-Inserted, All_same, no_claims,
}

if_some : (b : Bool) {a c : Bytes} → (if b then some a else none) ≡ some c → (b ≡ true) × (a ≡ c)
if_some true h = (refl, some_inj h)
if_some false h = cc

-- The holder of a milestone after a round.
Went-holder :
    (env : Env) (m : Manifest) (db db' : Db) (s s' : Standing) (w : Went env m db s db' s')
    (mid : Bytes)
    → holder mid db'.claims
      ≡ or_else
          (holder mid db.claims)
          (if is_member mid w.verdict.milestones then some w.ss.id else none)
unfolding written
Went-holder env m db db' s s' w mid =
    let x = write-Wrote _ _ _ _ _ w.done in
    rw x.rows
      (holder-insert_claims w.ss.id x.digest w.verdict.milestones db.claims x.claims mid x.claimed)

-- Where the tiers of the version have different ids, the milestones that a submission is given are
-- inserted without an error into the claims that it was judged by: none meets the unique column.
pub judge-insert_claims :
    (env : Env) (m : Manifest) (s : Standing) (tiers : List Tier) (claims : List Claim)
    (ss : Submission) (receipt : Bytes) {v : Verdict}
    → IsDistinct tiers
    → judge env m s tiers claims ss ≡ ok v
    → (claims' : List Claim) × (insert_claims ss.id receipt v.milestones claims ≡ ok claims')
judge-insert_claims env m s tiers claims ss receipt {v} distinct h =
    elim (judge_other env m s tiers claims ss h) [
      | inl plain ↦
          no_claims ss.id receipt claims v.milestones (ap (λ (x : Verdict). x.milestones) plain)
      | inr (good, score, has) ↦
          let (runs, _, given, _) = judge_scored env m s tiers claims ss good has h in
          crossed-Inserted ss.id receipt env m score runs claims tiers claims v.milestones distinct
            (All_same claims tiers) given
    ]

-- A milestone that is held before a call that succeeds has the same holder after it.
pub adjudicate-holder :
    (env : Env) (m : Manifest) (db : Db) {db' : Db} (mid : Bytes) {id : Bytes}
    → holder mid db.claims ≡ some id
    → adjudicate env m db ≡ some (ok db')
    → holder mid db'.claims ≡ some id
adjudicate-holder env m db mid {id} u h =
    let e =
      adjudicate_induction env m (λ d s. holder mid d.claims ≡ some id)
        (λ d d' s s' w p.
          Went-holder env m d d' s s' w mid
          ∙ ap
              (λ (o : Option Bytes).
                or_else o (if is_member mid w.verdict.milestones then some w.ss.id else none))
              p)
        db (λ s p. u) h in
    rw e.stored e.holds

-- Where a round goes on to the next number and a milestone that was free is held after it, the
-- holder is the submission with that number, which is valid and eligible for the milestone, and its
-- score crosses the threshold of a tier of the version with the milestone's id.
pub round-holder :
    (env : Env) (m : Manifest) (db db' : Db) (s s' : Standing) (mid id : Bytes)
    → round env m db s ≡ go db' s'
    → holder mid db.claims ≡ none
    → holder mid db'.claims ≡ some id
    → (ss : Submission) × (score : Bytes) × (t : Tier) × (find_sequence
          (s.watermark + 1)
          db.submissions
        ≡ some ss)
      × (ss.id ≡ id)
      × (is_valid ss.outcome ≡ true)
      × (ss.score ≡ some score)
      × In t db.tiers
      × (t.id ≡ mid)
      × (runs : List RunReceipt) × (measured env m ss ≡ ok runs)
      × (is_eligible env m mid runs ≡ ok true)
      × (crosses score t.threshold m.metric.direction ≡ true)
round-holder env m db db' s s' mid id h free held =
    let w = round-Went env m db s h in
    let now : (if is_member mid w.verdict.milestones then some w.ss.id else none) ≡ some id =
      ap
        (λ (o : Option Bytes).
          or_else o (if is_member mid w.verdict.milestones then some w.ss.id else none))
        (sym free)
      ∙ sym (Went-holder env m db db' s s' w mid)
      ∙ held in
    let (listed, same) = if_some (is_member mid w.verdict.milestones) now in
    let (score, good, has, runs, read, over) =
      judge_lists env m s db.tiers db.claims w.ss mid w.decided listed in
    let (t, i, named, eligible, crosses_) =
      member-crossed env m score runs db.claims db.tiers mid w.verdict.milestones over listed in
    (w.ss, score, t, w.found, same, good, has, i, named, runs, read, eligible, crosses_)

-- Where a round goes on to the next number and takes a valid submission with a score, a milestone
-- of the version that nobody holds, for which the submission is eligible and whose threshold the
-- score crosses, is held by that submission after the round.
pub round-holder_first :
    (env : Env) (m : Manifest) (db db' : Db) (s s' : Standing) (ss : Submission) (score : Bytes)
    (t : Tier) {runs : List RunReceipt}
    → round env m db s ≡ go db' s'
    → find_sequence (s.watermark + 1) db.submissions ≡ some ss
    → is_valid ss.outcome ≡ true
    → ss.score ≡ some score
    → In t db.tiers
    → holder t.id db.claims ≡ none
    → measured env m ss ≡ ok runs
    → is_eligible env m t.id runs ≡ ok true
    → crosses score t.threshold m.metric.direction ≡ true
    → holder t.id db'.claims ≡ some ss.id
round-holder_first env m db db' s s' ss score t {runs} h found good has i free read eligible over =
    let w = round-Went env m db s h in
    let same : w.ss ≡ ss = some_inj (sym w.found ∙ found) in
    let good' : is_valid w.ss.outcome ≡ true =
      ap (λ (x : Submission). is_valid x.outcome) same ∙ good in
    let has' : w.ss.score ≡ some score = ap (λ (x : Submission). x.score) same ∙ has in
    let (runs', read', mids, _) =
      judge_scored env m s db.tiers db.claims w.ss good' has' w.decided in
    let one_list : runs' ≡ runs =
      ok_inj (sym read' ∙ ap (λ (x : Submission). measured env m x) same ∙ read) in
    let eligible' : is_eligible env m t.id runs' ≡ ok true =
      ap (is_eligible env m t.id) one_list ∙ eligible in
    let unclaimed : is_claimed t.id db.claims ≡ false =
      is_claimed-holder t.id db.claims ∙ ap (λ (o : Option Bytes). not (is_none o)) free in
    let member =
      crossed-member env m score runs' db.claims db.tiers t w.verdict.milestones mids i unclaimed
        eligible' over in
    Went-holder env m db db' s s' w t.id
    ∙ ap
        (λ (o : Option Bytes).
          or_else o (if is_member t.id w.verdict.milestones then some w.ss.id else none))
        free
    ∙ ap (λ (b : Bool). if b then some w.ss.id else none) member
    ∙ ap (λ (x : Submission). some x.id) same
