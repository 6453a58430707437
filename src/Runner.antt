-- ===== src/Runner.antt =====
-- internal/platform/runners.go: the jobs that runners claim, and the rows that their results change.
-- A transaction is a function from the rows to new rows; an error leaves the old rows.
pub mod Jobs
pub mod Claim
pub mod Cancel
pub mod Builds
pub mod Bindings
pub mod Settle
pub mod Commit
pub mod Rows
pub mod AllRows
pub mod Adds
pub mod Changes
pub mod Phases
pub mod RowMoves
pub mod Moves
pub mod Keyed
pub mod Life
pub mod Races
pub mod Confirms
pub mod Delegated
use science_ladder.Base.{
  ℕ, Bool, ◌||◌, Option, none, some, List, [], ◌∷◌, if◌then◌else◌, Bytes, text, is_empty, text_eq,
  Result,
}
use science_ladder.Manifest.{Manifest}
use science_ladder.Results.{RunReceipt, Json}
use science_ladder.Artifacts.{Unicode}

-- `protocol.RunnerJob`, without the disks and the grant of a hidden suite, which results do not bind.
pub record RunnerJob : Type 0 where
  pub parent_job_digest : Bytes
  pub verification_policy : Bytes
  pub advisory_snapshot_digest : Bytes
  pub runtime_inventory_digest : Bytes
  pub acceptance_receipt_digest : Bytes
  pub deployment_mode : Bytes
  pub official_acceptance : Bool
  pub id : Bytes
  pub created_at : ℕ
  pub expires_at : ℕ
  pub purpose : Bytes
  pub submission_id : Bytes
  pub challenge_lock_digest : Bytes
  pub artifact_digest : Bytes
  pub suite_digest : Bytes
  pub execution_profile_digest : Bytes
  pub runner_epoch : Bytes
  pub fencing_token : ℕ
  pub required_host_group : Bytes
  pub excluded_host_ids : List Bytes
  pub manifest : Manifest

pub data Status : Type 0 where
  queued : Status
  running : Status
  complete : Status
  attention_required : Status
  cancelled : Status

-- A row of `runner_jobs`. A claim fills the host, the lease and the hash of the result token.
pub record JobRow : Type 0 where
  pub id : Bytes
  pub purpose : Bytes
  pub version_id : Bytes
  pub submission_id : Bytes
  pub payload : RunnerJob
  pub status : Status
  pub host_id : Option Bytes
  pub excluded_group : Option Bytes
  pub result_token_hash : Option Bytes
  pub fence : ℕ
  pub lease_expires_at : Option ℕ
  pub attempts : ℕ

-- A row of `runner_results`; the job is its primary key.
pub record ResultRow : Type 0 where
  pub job_id : Bytes
  pub digest : Bytes
  pub run : RunReceipt

-- A row of `submissions`, as far as results change it.
pub record SubmissionRow : Type 0 where
  pub id : Bytes
  pub status : Bytes
  pub outcome : Bytes
  pub score_ticks : Option Bytes

pub record Runners : Type 0 where
  pub jobs : List JobRow
  pub results : List ResultRow
  pub submissions : List SubmissionRow
  pub receipts : List Bytes  -- the digests of the stored receipts
  pub queue : List (Bytes × Bytes)  -- the platform's own jobs: kind and resource
  pub paused : List Bytes  -- the versions whose intake is paused
  pub incidents : List Bytes  -- the versions with a `challenge.incident` in the audit log

-- What the code takes from elsewhere: SHA-256 with JSON, random ids, the clock, and Unicode.
pub record Env : Type 0 where
  pub hash : Bytes → Bytes
  pub job_digest : RunnerJob → Result Bytes
  pub run_digest : RunReceipt → Result Bytes
  pub new_id : Bytes
  pub now : ℕ
  pub json : Json
  pub unicode : Unicode

-- The parts of `runnerIdentity` that a claim and a result read.
pub record Host : Type 0 where
  pub id : Bytes
  pub group : Bytes
  pub execution_profile : Bytes

-- `JobVerificationPolicy`, of the policy that the job names.
abbrev pub job_verification_policy : Bytes → Bytes
job_verification_policy policy = if is_empty policy then text "independent" else policy

abbrev pub is_independent : RunnerJob → Bool
is_independent job = text_eq (job_verification_policy job.verification_policy) (text "independent")

abbrev pub is_build : Bytes → Bool
is_build purpose = text_eq purpose (text "preflight") || text_eq purpose (text "artifact_prepare")

unfoldable pub find_job : Bytes → List JobRow → Option JobRow
unfolding text_eq
find_job id [] = none
find_job id (j ∷ js) = if text_eq j.id id then some j else find_job id js

-- An update of the row with the id, which is the primary key.
unfoldable pub update_job : Bytes → (JobRow → JobRow) → List JobRow → List JobRow
unfolding text_eq
update_job id change [] = []
update_job id change (j ∷ js) =
    let rest = update_job id change js in if text_eq j.id id then change j ∷ js else j ∷ rest

unfoldable pub find_result : Bytes → List ResultRow → Option ResultRow
unfolding text_eq
find_result id [] = none
find_result id (r ∷ rs) = if text_eq r.job_id id then some r else find_result id rs
