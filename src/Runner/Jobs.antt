-- ===== src/Runner/Jobs.antt =====
-- internal/platform/runners.go: `queueSubmission` and `recoverRunnerLeases`;
-- internal/platform/preparation.go: `queuePreparation`.
use science_ladder.Base.{
  ℕ, ◌+◌, Bool, true, false, ◌&&◌, ◌||◌, Option, none, some, List, [], ◌∷◌, ◌++◌, ltb, leb,
  if◌then◌else◌, Bytes, text, is_none, is_some, text_eq, Result, ok, fault, ◌>>=◌, ◌>>◌, reject_if,
}
use science_ladder.Runner.{
  RunnerJob, Status, queued, running, attention_required, JobRow, ResultRow, SubmissionRow, Runners,
  find_result, find_job,
}

abbrev pub has_submission_job : Bytes → List JobRow → Bool
has_submission_job submission [] = false
has_submission_job submission (j ∷ js) =
    (text_eq j.submission_id submission && text_eq j.purpose (text "submission"))
    || has_submission_job submission js

-- A fresh row: queued, with the first fence.
abbrev pub new_row : RunnerJob → Bytes → Bytes → Bytes → Option Bytes → JobRow
new_row job purpose version submission excluded = record {
  id = job.id;
  purpose = purpose;
  version_id = version;
  submission_id = submission;
  payload = job;
  status = queued;
  host_id = none;
  excluded_group = excluded;
  result_token_hash = none;
  fence = 1;
  lease_expires_at = none;
  attempts = 0;
}

-- `UPDATE submissions SET status=…`
unfoldable pub set_status : Bytes → Bytes → List SubmissionRow → List SubmissionRow
unfolding text_eq
set_status id status [] = []
set_status id status (s ∷ ss) =
    let rest = set_status id status ss in
    if text_eq s.id id then record s { status = status } ∷ ss else s ∷ rest

-- `INSERT INTO runner_jobs`; the id is the primary key.
unfoldable pub insert_job : JobRow → List JobRow → Result (List JobRow)
unfolding find_job
insert_job row jobs = do reject_if (is_some (find_job row.id jobs)) fault; ok (row ∷ jobs)

-- The transaction of `queueSubmission`, for the job that is made from the locked contract. The
-- validation grant, whose status it also sets, is not a row of the model.
unfoldable pub queue_submission : RunnerJob → Bytes → Bytes → Runners → Result Runners
unfolding insert_job set_status text_eq
queue_submission job version submission db =
    let inserted = (do
      jobs ← insert_job (new_row job (text "submission") version submission none) db.jobs
      ok (record db {
        jobs = jobs;
        submissions = set_status submission (text "queued") db.submissions;
      })) in
    if has_submission_job submission db.jobs then ok db else inserted

-- `queuePreparation`. `is_queued` says whether a row of the jobs
-- names the preflight or the intent already, which are no columns of these rows.
unfoldable pub queue_preparation : Bool → RunnerJob → Bytes → Runners → Result Runners
unfolding insert_job
queue_preparation is_queued job version db =
    let inserted = (do
      jobs ← insert_job (new_row job job.purpose version [] none) db.jobs
      ok (record db { jobs = jobs })) in
    if is_queued then ok db else inserted

abbrev pub is_running : Status → Bool
is_running running = true
is_running _ = false

abbrev pub is_before : Option ℕ → ℕ → Bool
is_before none now = false
is_before (some t) now = ltb t now

-- The condition of the update: a lease that ran out, and no result.
unfoldable pub is_expired : ℕ → List ResultRow → JobRow → Bool
unfolding find_result
is_expired now results j =
    is_running j.status && is_before j.lease_expires_at now && is_none (find_result j.id results)

abbrev pub add_host : Option Bytes → List Bytes → List Bytes
add_host none hosts = hosts
add_host (some h) hosts = hosts ++ h ∷ []

unfoldable pub recovered_payload : JobRow → RunnerJob
unfolding text_eq
recovered_payload j =
    if text_eq j.payload.verification_policy (text "platform")
    then j.payload
    else record j.payload { excluded_host_ids = add_host j.host_id j.payload.excluded_host_ids }

unfoldable pub recover_row : JobRow → JobRow
unfolding recovered_payload
recover_row j = record j {
  status = if leb 8 j.attempts then attention_required else queued;
  fence = j.fence + 1;
  payload = recovered_payload j;
  host_id = none;
  lease_expires_at = none;
  result_token_hash = none;
}

unfoldable pub recover_rows : ℕ → List ResultRow → List JobRow → List JobRow
unfolding is_expired recover_row
recover_rows now results [] = []
recover_rows now results (j ∷ js) =
    (if is_expired now results j then recover_row j else j) ∷ recover_rows now results js

unfoldable pub recover_runner_leases : ℕ → Runners → Runners
unfolding recover_rows
recover_runner_leases now db = record db { jobs = recover_rows now db.results db.jobs }
