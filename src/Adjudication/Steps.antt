-- ===== src/Adjudication/Steps.antt =====
-- One round of the loop taken apart, and induction over the rounds.
use science_ladder.Base.{
  ℕ, zero, suc, ◌+◌, ◌≡◌, refl, true, false, Option, none, some, List, arith, Bytes, text, Result,
  ok, err, reject_if-ok, >>=-eq-ok, subst,
}
use science_ladder.Adjudication.Rows.{Submission, Claim, AuditRow, Db, Env}
use science_ladder.Manifest.{Manifest}
use science_ladder.Adjudication.Judge.{Standing, Verdict, judge, next_standing}
use science_ladder.Adjudication.Write.{
  find_sequence, valid_policy, policy_of, write, written, receipt_for, has_receipt, insert_claims,
  return_units, release, audit, event_for,
}
use science_ladder.Adjudication.Run.{
  Round, stop, fail, go, round, rounds, is_validated, visit, judged, round_of, after, start,
  from_start, store_all, adjudicate, store, highest,
}

-- What a round that goes on has read, decided and written.
pub record Went (env : Env) (m : Manifest) (db : Db) (s : Standing) (db' : Db) (s' : Standing)
    : Type 0 where
  pub ss : Submission
  pub verdict : Verdict
  pub found : find_sequence (s.watermark + 1) db.submissions ≡ some ss
  pub policy : valid_policy (policy_of ss) ≡ true
  pub validated : is_validated ss ≡ true
  pub decided : judge env m s db.tiers db.claims ss ≡ ok verdict
  pub done : write env db (s.watermark + 1) ss verdict ≡ ok db'
  pub standing : s' ≡ next_standing s ss verdict

-- What a write that succeeds has computed.
pub record Wrote (env : Env) (db : Db) (n : ℕ) (ss : Submission) (v : Verdict) (db' : Db)
    : Type 0 where
  pub digest : Bytes
  pub claims : List Claim
  pub units : ℕ
  pub log : List AuditRow
  pub digested : env.receipt_digest (receipt_for env db n ss v) ≡ ok digest
  pub fresh : has_receipt digest db.receipts ≡ false
  pub claimed : insert_claims ss.id digest v.milestones db.claims ≡ ok claims
  pub returned : return_units (release ss.id db.reservations).1 db.reserved_units ≡ ok units
  pub audited :
      audit env
        (text "submission.adjudicated")
        (event_for v.publish n ss v.milestones digest)
        db.audit_log
      ≡ ok log
  pub rows : db' ≡ written env db n ss v digest claims units log

pub write-Wrote :
    (env : Env) (db : Db) (n : ℕ) (ss : Submission) (v : Verdict) {db' : Db}
    → write env db n ss v ≡ ok db'
    → Wrote env db n ss v db'
unfolding write
write-Wrote env db n ss v h =
    let (digest, digested, h₁) = >>=-eq-ok _ _ h in
    let (u, fresh, h₂) = >>=-eq-ok _ _ h₁ in
    let (claims, claimed, h₃) = >>=-eq-ok _ _ h₂ in
    let (units, returned, h₄) = >>=-eq-ok _ _ h₃ in
    let (log, audited, h₅) = >>=-eq-ok _ _ h₄ in
    record {
      digest = digest;
      claims = claims;
      units = units;
      log = log;
      digested = digested;
      fresh = reject_if-ok _ _ fresh;
      claimed = claimed;
      returned = returned;
      audited = audited;
      rows = cc;
    }

round_of-go :
    (s : Standing) (ss : Submission) (v : Verdict) (r : Result Db) {db' : Db} {s' : Standing}
    → round_of s ss v r ≡ go db' s'
    → (r ≡ ok db') × (s' ≡ next_standing s ss v)
round_of-go s ss v (ok db) h = (cc, cc)
round_of-go s ss v (err e) h = cc

judged-go :
    (env : Env) (db : Db) (s : Standing) (ss : Submission) (r : Result Verdict) {db' : Db}
    {s' : Standing}
    → judged env db s ss r ≡ go db' s'
    → (v : Verdict) × (r ≡ ok v)
      × (write env db (s.watermark + 1) ss v ≡ ok db')
      × (s' ≡ next_standing s ss v)
judged-go env db s ss (ok v) h = let (w, n) = round_of-go s ss v _ h in (v, refl, w, n)
judged-go env db s ss (err e) h = cc

visit-go :
    (env : Env) (m : Manifest) (db : Db) (s : Standing) (o : Option Submission) {db' : Db}
    {s' : Standing}
    → visit env m db s o ≡ go db' s'
    → (ss : Submission) × (o ≡ some ss)
      × (valid_policy (policy_of ss) ≡ true)
      × (is_validated ss ≡ true)
      × (judged env db s ss (judge env m s db.tiers db.claims ss) ≡ go db' s')
visit-go env m db s none h = cc
visit-go env m db s (some ss) h = (ss, refl, ground arith, ground arith, ground arith)

pub round-Went :
    (env : Env) (m : Manifest) (db : Db) (s : Standing) {db' : Db} {s' : Standing}
    → round env m db s ≡ go db' s'
    → Went env m db s db' s'
unfolding round
round-Went env m db s h =
    let (ss, found, policy, validated, rest) = visit-go env m db s _ h in
    let (v, decided, done, standing) = judged-go env db s ss _ rest in
    record {
      ss = ss;
      verdict = v;
      found = found;
      policy = policy;
      validated = validated;
      decided = decided;
      done = done;
      standing = standing;
    }

-- An invariant of the rounds holds when the loop ends, and the loop ends by its `break`.
module _ {ℓ} (env : Env) (m : Manifest) (P : Db → Standing → Type ℓ)
    (keep : (db db' : Db) (s s' : Standing)
      → round env m db s ≡ go db' s'
      → P db s
      → P db' s') where
  abbrev pub EndsIn : Db → Standing → Type ℓ
  EndsIn db' s' = P db' s' × (round env m db' s' ≡ stop)

  after_induction :
      (fuel : ℕ) (db : Db) (s : Standing) (r : Round) (db' : Db) (s' : Standing)
      → ((d : Db) (t : Standing)
          → P d t
          → rounds env m fuel d t ≡ some (ok (db', s'))
          → EndsIn db' s')
      → P db s
      → round env m db s ≡ r
      → after (rounds env m fuel) db s r ≡ some (ok (db', s'))
      → EndsIn db' s'
  after_induction fuel db s stop db' s' ih p e h =
      let both : ◌≡◌ {A = Db × Standing} (db, s) (db', s') = cc in
      subst (λ (t : Db × Standing). EndsIn t.0 t.1) both (p, e)
  after_induction fuel db s (fail x) db' s' ih p e h = cc
  after_induction fuel db s (go d t) db' s' ih p e h = ih d t (keep db d s t e p) h

  pub rounds_induction :
      (fuel : ℕ) (db : Db) (s : Standing) (db' : Db) (s' : Standing)
      → P db s
      → rounds env m fuel db s ≡ some (ok (db', s'))
      → EndsIn db' s'
  unfolding rounds
  rounds_induction zero db s db' s' p h = cc
  rounds_induction (suc fuel) db s db' s' p h =
      after_induction fuel db s (round env m db s) db' s' (λ d t. rounds_induction fuel d t db' s')
        p refl h

store_all-ok :
    (r : Option (Result (Db × Standing))) {db' : Db}
    → store_all r ≡ some (ok db')
    → (last : Db) × (s' : Standing) × (r ≡ some (ok (last, s'))) × (db' ≡ store last s')
store_all-ok none h = cc
store_all-ok (some (err e)) h = cc
store_all-ok (some (ok (db, s))) h = (db, s, refl, cc)

-- A call that succeeds, taken apart.
record Adjudicated (env : Env) (m : Manifest) (db db' : Db) : Type 0 where
  from : Standing
  to : Standing
  last : Db
  started : start m db ≡ ok from
  run : rounds env m (suc (highest db.submissions)) db from ≡ some (ok (last, to))
  stored : db' ≡ store last to

from_start_parts :
    (env : Env) (m : Manifest) (db : Db) (r : Result Standing) {db' : Db}
    → start m db ≡ r
    → from_start env m db r ≡ some (ok db')
    → Adjudicated env m db db'
from_start_parts env m db (err e) p h = cc
from_start_parts env m db (ok s) p h =
    let (last, s', run, stored) = store_all-ok _ h in
    record { from = s; to = s'; last = last; started = p; run = run; stored = stored }

adjudicate-Adjudicated :
    (env : Env) (m : Manifest) (db : Db) {db' : Db}
    → adjudicate env m db ≡ some (ok db')
    → Adjudicated env m db db'
unfolding adjudicate
adjudicate-Adjudicated env m db h = from_start_parts env m db (start m db) refl h

-- How a call that succeeds ends, for an invariant of its rounds.
pub record Ended {ℓ} (env : Env) (m : Manifest) (P : Db → Standing → Type ℓ) (db' : Db)
    : Type ℓ where
  pub to : Standing
  pub last : Db
  pub holds : P last to
  pub stopped : round env m last to ≡ stop
  pub stored : db' ≡ store last to

module _ {ℓ} (env : Env) (m : Manifest) (P : Db → Standing → Type ℓ)
    (keep : (db db' : Db) (s s' : Standing) → Went env m db s db' s' → P db s → P db' s') where
  pub adjudicate_induction :
      (db : Db) {db' : Db}
      → ((s : Standing) → start m db ≡ ok s → P db s)
      → adjudicate env m db ≡ some (ok db')
      → Ended env m P db'
  adjudicate_induction db begin h =
      let a = adjudicate-Adjudicated env m db h in
      let (holds, stopped) =
        rounds_induction env m P (λ d d' t t' r. keep d d' t t' (round-Went env m d t r))
          (suc (highest db.submissions)) db a.from a.last a.to (begin a.from a.started) a.run in
      record { to = a.to; last = a.last; holds = holds; stopped = stopped; stored = a.stored }
