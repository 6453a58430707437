-- ===== src/Adjudication/Run.antt =====
-- The loop of adjudication: submissions are taken in the order of their sequence numbers.
use science_ladder.Base.{
  ℕ, zero, suc, ◌+◌, Bool, not, Option, none, some, List, [], ◌∷◌, if◌then◌else◌, Bytes, text,
  text_eq, Result, ok, err, Error, refused, fault, ◌>>=◌,
}
use Prim.Native.Nat.{max}
use science_ladder.Adjudication.Rows.{Submission, Db, Env}
use science_ladder.Manifest.{Manifest}
use science_ladder.Adjudication.Judge.{Standing, Verdict, judge, next_standing}
use science_ladder.Adjudication.Write.{find_sequence, valid_policy, policy_of, write}

-- How a round of the loop ends: `break`, an error, or another round.
pub data Round : Type 0 where
  stop : Round
  fail : Error → Round
  go : Db → Standing → Round

abbrev pub round_of : Standing → Submission → Verdict → Result Db → Round
round_of s ss v (err e) = fail e
round_of s ss v (ok db) = go db (next_standing s ss v)

abbrev pub judged : Env → Db → Standing → Submission → Result Verdict → Round
judged env db s ss (err e) = fail e
judged env db s ss (ok v) = round_of s ss v (write env db (s.watermark + 1) ss v)

abbrev pub is_validated : Submission → Bool
is_validated ss = text_eq ss.status (text "validated")

abbrev pub visit : Env → Manifest → Db → Standing → Option Submission → Round
visit env m db s none = stop
visit env m db s (some ss) =
    if not (valid_policy (policy_of ss))
    then fail (refused 422 "verification_policy_invalid")
    else if not (is_validated ss)
    then stop
    else judged env db s ss (judge env m s db.tiers db.claims ss)

unfoldable pub round : Env → Manifest → Db → Standing → Round
round env m db s = visit env m db s (find_sequence (s.watermark + 1) db.submissions)

abbrev pub after :
    (Db → Standing → Option (Result (Db × Standing)))
    → Db
    → Standing
    → Round
    → Option (Result (Db × Standing))
after more db s stop = some (ok (db, s))
after more db s (fail e) = some (err e)
after more db s (go db' s') = more db' s'

-- `none` means that the fuel ran out.
unfoldable pub rounds : Env → Manifest → ℕ → Db → Standing → Option (Result (Db × Standing))
rounds env m zero db s = none
rounds env m (suc fuel) db s = after (rounds env m fuel) db s (round env m db s)

-- `SELECT score_ticks::text FROM submissions WHERE id=$1`; a missing row or score is a fault.
unfoldable pub score_of : Bytes → List Submission → Result Bytes
score_of id [] = err fault
score_of id (s ∷ ss) =
    let rest = score_of id ss in
    if text_eq s.id id then elim s.score [ none ↦ err fault | some score ↦ ok score ] else rest

abbrev pub start_score : Manifest → Option Bytes → List Submission → Result Bytes
start_score m none ss = ok m.metric.baseline_ticks
start_score m (some id) ss = score_of id ss

-- From where the manifest of the version is decoded to the start of the loop.
unfoldable pub start : Manifest → Db → Result Standing
start m db = do
  best ← start_score m db.best_id db.submissions
  frontier ← start_score m db.frontier_id db.submissions
  ok (record {
    watermark = db.watermark;
    best = best;
    frontier = frontier;
    best_id = db.best_id;
    frontier_id = db.frontier_id;
  })

-- `UPDATE challenge_versions SET watermark=…, verified_best_id=…, public_frontier_id=…`
abbrev pub store : Db → Standing → Db
store db s = record db { watermark = s.watermark; best_id = s.best_id; frontier_id = s.frontier_id }

abbrev pub store_all : Option (Result (Db × Standing)) → Option (Result Db)
store_all none = none
store_all (some (err e)) = some (err e)
store_all (some (ok (db, s))) = some (ok (store db s))

abbrev pub highest : List Submission → ℕ
highest [] = 0
highest (s ∷ ss) = max s.sequence (highest ss)

abbrev pub from_start : Env → Manifest → Db → Result Standing → Option (Result Db)
from_start env m db (err e) = some (err e)
from_start env m db (ok s) = store_all (rounds env m (suc (highest db.submissions)) db s)

-- One call, with a round for each sequence number that is there and one more to stop.
unfoldable pub adjudicate : Env → Manifest → Db → Option (Result Db)
adjudicate env m db = from_start env m db (start m db)
