-- ===== src/Adjudication/Rows.antt =====
-- The tables that adjudication reads and writes, and the libraries that it calls.
use science_ladder.Base.{ℕ, Bool, Option, List, Bytes, Result}
use science_ladder.Artifacts.{Unicode}
use science_ladder.Results.{RunReceipt, Json}

-- A row of `submissions`, joined with its acceptance receipt and its runs.
pub record Submission : Type 0 where
  pub id : Bytes
  pub owner : Bytes
  pub artifact : Bytes
  pub disk : Bytes
  pub sequence : ℕ
  pub status : Bytes
  pub outcome : Bytes
  pub score : Option Bytes
  pub publish_requested : Bool
  pub is_public : Bool
  pub commitment : Bytes
  pub receipt : Bytes  -- receipt_digest
  pub adjudication : Option Bytes  -- adjudication_digest
  pub accepted_mode : Bytes
  pub accepted_official : Bool
  pub policy : Bytes  -- the receipt's verificationPolicy, empty if it has none
  pub measured_runs : List Bytes  -- the results of its submission and confirmation jobs
  pub run_digests : List Bytes  -- the digests of all its results

-- A milestone of the version: `milestone_version_mappings`.
pub record Tier : Type 0 where
  pub id : Bytes
  pub threshold : Bytes

-- A row of `milestone_claims`.
pub record Claim : Type 0 where
  pub milestone : Bytes
  pub submission : Bytes
  pub receipt : Bytes

-- What an adjudication receipt says (`protocol.Receipt` with its `Data`).
pub record Receipt : Type 0 where
  pub id : Bytes
  pub created_at : ℕ
  pub verification_policy : Bytes
  pub verification_status : Bytes
  pub deployment_mode : Bytes
  pub official_acceptance : Bool
  pub subject : Bytes
  pub submission : Bytes
  pub sequence : ℕ
  pub outcome : Bytes
  pub score : Option Bytes
  pub verified_best_advanced : Bool
  pub public_frontier_advanced : Bool
  pub milestones : List Bytes
  pub independent_replication : Bool

-- A row of `receipts`; those that adjudication did not write have no payload here.
pub record ReceiptRow : Type 0 where
  pub digest : Bytes
  pub payload : Option Receipt
  pub owner : Bytes
  pub is_public : Bool

-- What the audit log says of an adjudication; the last part only of a published one.
pub record Event : Type 0 where
  pub sequence : ℕ
  pub outcome : Bytes
  pub commitment : Bytes
  pub disclosed : Option (Bytes × Option Bytes × List Bytes × Bytes)

-- A row of `audit_events`.
pub record AuditRow : Type 0 where
  pub sequence : ℕ
  pub kind : Bytes
  pub payload : Event
  pub previous : Bytes
  pub digest : Bytes

-- A row of `capacity_reservations`.
pub record Reservation : Type 0 where
  pub submission : Bytes
  pub released : Bool

pub record Db : Type 0 where
  pub watermark : ℕ
  pub best_id : Option Bytes
  pub frontier_id : Option Bytes
  pub submissions : List Submission
  pub tiers : List Tier  -- in the order of their ids
  pub claims : List Claim
  pub receipts : List ReceiptRow
  pub sign_jobs : List Bytes
  pub outbox : List (Bytes × Bytes × Bytes)  -- claim, milestone, submission
  pub published : List Bytes  -- the artifacts with a `public_at`
  pub reservations : List Reservation
  pub reserved_units : ℕ
  pub audit_log : List AuditRow  -- the newest first
  pub drawn : ℕ  -- how many ids were drawn

-- What the code takes from elsewhere: random ids, the clock, SHA-256, JSON, and Unicode.
pub record Env : Type 0 where
  pub new_id : ℕ → Bytes
  pub now : ℕ → ℕ
  pub receipt_digest : Receipt → Result Bytes
  pub event_digest : Bytes → Bytes → Event → Result Bytes
  pub unmarshal_run : Bytes → Result RunReceipt
  pub json : Json
  pub unicode : Unicode
