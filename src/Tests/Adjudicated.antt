-- ===== src/Tests/Adjudicated.antt =====
-- The adjudication of three submissions, of which the last still waits for its runs.
use science_ladder.Base.{
  ℕ, ◌+◌, ◌≡◌, ◌≢◌, refl, true, false, Option, none, some, [], ◌∷◌, arith, first, Bytes, text,
  text_eq, Result, ok,
}
use science_ladder.Ticks.{set_string}
use science_ladder.Metric.{maximize, is_maximize}
use science_ladder.Tests.Locked.{manifest, run, json, unicode}
use science_ladder.Compare.{better, crosses, meaningful}
use science_ladder.Adjudication.{
  Submission, Tier, Db, Env, Standing, Round, go, round, rounds, start, adjudicate, judge, crossed,
  is_eligible, find_sequence, valid_policy, write, written, receipt_for, has_receipt, insert_claims,
  is_claimed, return_units, release, audit, finalize_row, finalize_one, publish_receipts, enqueue,
  next_standing,
}
use science_ladder.Adjudication.Claims.{holder}
use science_ladder.Adjudication.Order.{settled_at, waits, adjudicate-settled, adjudicate-waits}
use science_ladder.Adjudication.Milestones.{adjudicate-holder, round-holder_first}
use science_ladder.Adjudication.Best.{rounds-best_of_all}
use science_ladder.Adjudication.Books.{
  IsBalanced, IsChain, adjudicate-IsBalanced, adjudicate-IsChain,
}
use science_ladder.Adjudication.Ends.{adjudicate-ne-none}

abbrev pub env : Env
env = record {
  new_id = λ n. n ∷ [];
  now = λ n. n;
  receipt_digest = λ r. ok (r.sequence ∷ 1 ∷ []);
  event_digest = λ previous kind e. ok (e.sequence ∷ 2 ∷ []);
  unmarshal_run = λ r. ok (run r);
  json = json;
  unicode = unicode;
}

abbrev pub submission : ℕ → Bytes → Bytes → Submission
submission n status score = record {
  id = n ∷ [];
  owner = text "ada";
  artifact = n ∷ 7 ∷ [];
  disk = n ∷ 8 ∷ [];
  sequence = n;
  status = status;
  outcome = text "valid";
  score = some score;
  publish_requested = false;
  is_public = false;
  commitment = [];
  receipt = n ∷ 9 ∷ [];
  adjudication = none;
  accepted_mode = text "local";
  accepted_official = false;
  policy = text "platform";
  measured_runs = [];
  run_digests = [];
}

abbrev one : Submission
one = submission 1 (text "validated") (text "12")

abbrev pub two : Submission
two = submission 2 (text "validated") (text "15")

abbrev tier : Tier
tier = record { id = text "first"; threshold = text "12" }

abbrev upper : Tier
upper = record { id = text "second"; threshold = text "14" }

abbrev pub db : Db
db = record {
  watermark = 0;
  best_id = none;
  frontier_id = none;
  submissions = one ∷ two ∷ submission 3 (text "accepted") (text "99") ∷ [];
  tiers = tier ∷ upper ∷ [];
  claims = [];
  receipts = [];
  sign_jobs = [];
  outbox = [];
  published = [];
  reservations = record { submission = 1 ∷ []; released = false } ∷ [];
  reserved_units = 2;
  audit_log = [];
  drawn = 0;
}

abbrev result_of : Option (Result Db) → Db
result_of (some (ok d)) = d
result_of _ = db

abbrev settled : Db
settled = result_of (adjudicate env manifest db)

ran : adjudicate env manifest db ≡ some (ok settled)
unfolding adjudicate start rounds round find_sequence valid_policy text_eq judge crossed is_claimed
    is_eligible crosses better meaningful set_string is_maximize write written receipt_for
    has_receipt insert_claims return_units release audit finalize_row finalize_one publish_receipts
    enqueue next_standing
ran = refl

adjudicate-settled_example : settled_at (find_sequence 2 settled.submissions) ≡ true
unfolding adjudicate start rounds round find_sequence valid_policy text_eq judge crossed is_claimed
    is_eligible crosses better meaningful set_string is_maximize write written receipt_for
    has_receipt insert_claims return_units release audit finalize_row finalize_one publish_receipts
    enqueue next_standing
adjudicate-settled_example = adjudicate-settled env manifest db 2 ran (omega arith) (omega arith)

adjudicate-waits_example : waits (find_sequence (settled.watermark + 1) settled.submissions) ≡ true
adjudicate-waits_example = adjudicate-waits env manifest db ran

adjudicate-IsBalanced_example : IsBalanced settled
adjudicate-IsBalanced_example = adjudicate-IsBalanced env manifest db refl ran

adjudicate-IsChain_example : IsChain env settled.audit_log
adjudicate-IsChain_example = adjudicate-IsChain env manifest db tt ran

adjudicate-ne-none_example : adjudicate env manifest db ≢ none
adjudicate-ne-none_example = adjudicate-ne-none env manifest db

-- The milestone that the first submission took stays with it.
abbrev claimed : Db
claimed = record db {
  claims = record { milestone = text "first"; submission = 5 ∷ []; receipt = [] } ∷ [];
}

abbrev reclaimed : Db
reclaimed = result_of (adjudicate env manifest claimed)

adjudicate-holder_example : holder (text "first") reclaimed.claims ≡ some (5 ∷ [])
unfolding holder adjudicate start rounds round find_sequence valid_policy text_eq judge crossed
    is_claimed is_eligible crosses better meaningful set_string is_maximize write written
    receipt_for has_receipt insert_claims return_units release audit finalize_row finalize_one
    publish_receipts enqueue next_standing
adjudicate-holder_example = adjudicate-holder env manifest claimed (text "first") refl refl

abbrev pub from : Standing
from = record {
  watermark = 0;
  best = text "10";
  frontier = text "10";
  best_id = none;
  frontier_id = none;
}

abbrev pub next_db : Round → Db
next_db (go d s) = d
next_db _ = db

abbrev pub next_from : Round → Standing
next_from (go d s) = s
next_from _ = from

abbrev first_db : Db
first_db = next_db (round env manifest db from)

abbrev first_from : Standing
first_from = next_from (round env manifest db from)

went : round env manifest db from ≡ go first_db first_from
unfolding adjudicate start rounds round find_sequence valid_policy text_eq judge crossed is_claimed
    is_eligible crosses better meaningful set_string is_maximize write written receipt_for
    has_receipt insert_claims return_units release audit finalize_row finalize_one publish_receipts
    enqueue next_standing
went = refl

round-holder_first_example : holder (text "first") first_db.claims ≡ some (1 ∷ [])
unfolding holder adjudicate start rounds round find_sequence valid_policy text_eq judge crossed
    is_claimed is_eligible crosses better meaningful set_string is_maximize write written
    receipt_for has_receipt insert_claims return_units release audit finalize_row finalize_one
    publish_receipts enqueue next_standing
round-holder_first_example =
    round-holder_first env manifest db first_db from first_from one (text "12") tier went refl refl
      refl first refl refl refl refl

holds : holder (text "first") first_db.claims ≡ some (1 ∷ [])
unfolding holder adjudicate start rounds round find_sequence valid_policy text_eq judge crossed
    is_claimed is_eligible crosses better meaningful set_string is_maximize write written
    receipt_for has_receipt insert_claims return_units release audit finalize_row finalize_one
    publish_receipts enqueue next_standing
holds = refl

abbrev result_pair : Option (Result (Db × Standing)) → Db × Standing
result_pair (some (ok p)) = p
result_pair _ = (db, from)

abbrev last_pair : Db × Standing
last_pair = result_pair (rounds env manifest 4 db from)

finished : rounds env manifest 4 db from ≡ some (ok (last_pair.0, last_pair.1))
unfolding adjudicate start rounds round find_sequence valid_policy text_eq judge crossed is_claimed
    is_eligible crosses better meaningful set_string is_maximize write written receipt_for
    has_receipt insert_claims return_units release audit finalize_row finalize_one publish_receipts
    enqueue next_standing
finished = refl

rounds-best_of_all_example : better (text "12") last_pair.1.best maximize ≡ false
unfolding adjudicate start rounds round find_sequence valid_policy text_eq judge crossed is_claimed
    is_eligible crosses better meaningful set_string is_maximize write written receipt_for
    has_receipt insert_claims return_units release audit finalize_row finalize_one publish_receipts
    enqueue next_standing
rounds-best_of_all_example =
    rounds-best_of_all env manifest 4 db last_pair.0 from last_pair.1 1 one (text "12") refl
      finished refl refl refl (omega arith) (omega arith)
