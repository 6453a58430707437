-- ===== src/Adjudication/Write.antt =====
-- What adjudication writes about one submission.
use science_ladder.Base.{
  ℕ, ◌+◌, ◌-◌, ◌*◌, Bool, true, false, ◌&&◌, ◌||◌, not, Option, none, some, List, [], ◌∷◌, ◌++◌,
  ltb, ◌==◌, if◌then◌else◌, Bytes, text, is_empty, text_eq, length, Result, ok, fault, ◌>>=◌, ◌>>◌,
  reject_if,
}
use science_ladder.Adjudication.Rows.{
  Submission, Claim, Receipt, ReceiptRow, Event, AuditRow, Reservation, Db, Env,
}
use science_ladder.Adjudication.Judge.{Verdict, is_valid, is_claimed}

abbrev pub independent : Bytes
independent = text "independent"

abbrev pub platform : Bytes
platform = text "platform"

-- pkg/protocol/assurance.go: `ValidVerificationPolicy`.
unfoldable pub valid_policy : Bytes → Bool
valid_policy policy = text_eq policy platform || text_eq policy independent

unfoldable pub verified_status : Bytes → Bytes → Bytes
unfolding valid_policy
verified_status policy outcome =
    if not (is_valid outcome) || not (valid_policy policy)
    then []
    else if text_eq policy independent
    then text "independently_replicated"
    else text "platform_verified"

-- `COALESCE(NULLIF(policy, ''), 'independent')`
abbrev pub policy_of : Submission → Bytes
policy_of ss = if is_empty ss.policy then independent else ss.policy

-- The row with the given sequence number.
unfoldable pub find_sequence : ℕ → List Submission → Option Submission
find_sequence n [] = none
find_sequence n (s ∷ ss) = if s.sequence == n then some s else find_sequence n ss

-- The new receipt; the milestones are claimed under its digest.
unfoldable pub receipt_for : Env → Db → ℕ → Submission → Verdict → Receipt
unfolding verified_status
receipt_for env db sequence ss v = record {
  id = env.new_id db.drawn;
  created_at = env.now db.drawn;
  verification_policy = policy_of ss;
  verification_status = verified_status (policy_of ss) ss.outcome;
  deployment_mode = ss.accepted_mode;
  official_acceptance = ss.accepted_official;
  subject = ss.artifact;
  submission = ss.id;
  sequence = sequence;
  outcome = ss.outcome;
  score = ss.score;
  verified_best_advanced = v.is_record;
  public_frontier_advanced = v.is_advance;
  milestones = v.milestones;
  independent_replication = text_eq (policy_of ss) independent && is_valid ss.outcome;
}

unfoldable pub has_receipt : Bytes → List ReceiptRow → Bool
has_receipt d [] = false
has_receipt d (r ∷ rs) = text_eq r.digest d || has_receipt d rs

-- `ON CONFLICT DO NOTHING`
unfoldable pub enqueue : Bytes → List Bytes → List Bytes
enqueue j [] = j ∷ []
enqueue j (k ∷ ks) = if text_eq k j then k ∷ ks else k ∷ enqueue j ks

-- migrations/001_initial.sql: `milestone_id` is unique in `milestone_claims`, so that the database
-- refuses a second claim of a milestone.
abbrev pub breaks_unique : Bytes → List Claim → Bool
breaks_unique mid claims = is_claimed mid claims

-- The loop of inserts.
unfoldable pub insert_claims : Bytes → Bytes → List Bytes → List Claim → Result (List Claim)
unfolding is_claimed
insert_claims submission receipt [] claims = ok claims
insert_claims submission receipt (mid ∷ mids) claims = do
  reject_if (breaks_unique mid claims) fault
  insert_claims submission receipt mids
      (record { milestone = mid; submission = submission; receipt = receipt } ∷ claims)

abbrev pub outbox_events : Env → ℕ → Bytes → List Bytes → List (Bytes × Bytes × Bytes)
outbox_events env n submission [] = []
outbox_events env n submission (mid ∷ mids) =
    (env.new_id n, mid, submission) ∷ outbox_events env (n + 2) submission mids

-- `UPDATE submissions SET status='finalized', public=…, adjudication_digest=… WHERE id=…`
unfoldable pub finalize_one : Bytes → Bool → Bytes → Submission → Submission
finalize_one id publish digest s =
    if text_eq s.id id
    then record s { status = text "finalized"; is_public = publish; adjudication = some digest }
    else s

unfoldable pub finalize_row : Bytes → Bool → Bytes → List Submission → List Submission
finalize_row id publish digest [] = []
finalize_row id publish digest (s ∷ ss) =
    finalize_one id publish digest s ∷ finalize_row id publish digest ss

abbrev pub is_member : Bytes → List Bytes → Bool
is_member d [] = false
is_member d (e ∷ es) = text_eq e d || is_member d es

unfoldable pub publish_receipts : List Bytes → List ReceiptRow → List ReceiptRow
publish_receipts digests [] = []
publish_receipts digests (r ∷ rs) =
    (if is_member r.digest digests then record r { is_public = true } else r)
    ∷ publish_receipts digests rs

-- `UPDATE capacity_reservations SET released_at=now() WHERE … AND released_at IS NULL`, with the
-- number of rows that it touches (`submission_id` is the key, so at most one is found).
unfoldable pub release : Bytes → List Reservation → List Reservation × Bool
release id [] = ([], false)
release id (r ∷ rs) =
    let (rest, hit) = release id rs in
    if text_eq r.submission id && not r.released
    then (record r { released = true } ∷ rs, true)
    else (r ∷ rest, hit)

abbrev pub last_digest : List AuditRow → Bytes
last_digest [] = text "genesis"
last_digest (r ∷ _) = r.digest

abbrev pub last_sequence : List AuditRow → ℕ
last_sequence [] = 0
last_sequence (r ∷ _) = r.sequence

abbrev pub audit_row : Bytes → Event → List AuditRow → Bytes → AuditRow
audit_row kind payload log digest = record {
  sequence = last_sequence log + 1;
  kind = kind;
  payload = payload;
  previous = last_digest log;
  digest = digest;
}

-- internal/platform/server.go: `audit`.
unfoldable pub audit : Env → Bytes → Event → List AuditRow → Result (List AuditRow)
audit env kind payload log = do
  digest ← env.event_digest (last_digest log) kind payload
  ok (audit_row kind payload log digest ∷ log)

-- The digests that a publication makes public beside the new receipt.
abbrev pub disclosed_receipts : Submission → List Bytes
disclosed_receipts ss = ss.receipt ∷ ss.run_digests

abbrev pub event_for : Bool → ℕ → Submission → List Bytes → Bytes → Event
event_for publish sequence ss mids digest = record {
  sequence = sequence;
  outcome = ss.outcome;
  commitment = ss.commitment;
  disclosed = if publish then some (ss.id, ss.score, mids, digest) else none;
}

-- `UPDATE capacity SET reserved_units=reserved_units-2`, if a reservation was released. The column
-- is checked to stay at least 0.
unfoldable pub return_units : Bool → ℕ → Result ℕ
return_units false units = ok units
return_units true units = do reject_if (ltb units 2) fault; ok (units - 2)

abbrev pub receipt_row : Submission → Verdict → Receipt → Bytes → ReceiptRow
receipt_row ss v receipt digest = record {
  digest = digest;
  payload = some receipt;
  owner = ss.owner;
  is_public = v.publish;
}

-- The rows after all statements, from the values that could be refused.
unfoldable pub written :
    Env → Db → ℕ → Submission → Verdict → Bytes → List Claim → ℕ → List AuditRow → Db
written env db sequence ss v digest claims units log =
    let row = receipt_row ss v (receipt_for env db sequence ss v) digest in
    let receipts = row ∷ db.receipts in
    record db {
      submissions = finalize_row ss.id v.publish digest db.submissions;
      claims = claims;
      receipts = if v.publish then publish_receipts (disclosed_receipts ss) receipts else receipts;
      sign_jobs = enqueue digest db.sign_jobs;
      outbox = outbox_events env (db.drawn + 2) ss.id v.milestones ++ db.outbox;
      published =
          if v.publish then enqueue ss.artifact (enqueue ss.disk db.published) else db.published;
      reservations = (release ss.id db.reservations).0;
      reserved_units = units;
      audit_log = log;
      drawn = db.drawn + 2 + 2 * length v.milestones;
    }

-- The statements of the loop's body, in their order.
unfoldable pub write : Env → Db → ℕ → Submission → Verdict → Result Db
write env db sequence ss v = do
  digest ← env.receipt_digest (receipt_for env db sequence ss v)
  reject_if (has_receipt digest db.receipts) fault
  claims ← insert_claims ss.id digest v.milestones db.claims
  units ← return_units (release ss.id db.reservations).1 db.reserved_units
  log ←
      audit env (text "submission.adjudicated")
        (event_for v.publish sequence ss v.milestones digest) db.audit_log
  ok (written env db sequence ss v digest claims units log)
