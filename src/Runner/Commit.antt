-- ===== src/Runner/Commit.antt =====
-- internal/platform/runners.go: the transaction of `runnerResult`, for a receipt whose signature and
-- identity are checked. The owner of the stored receipt is not a column of the model.
use science_ladder.Base.{
  ℕ, ◌+◌, Bool, true, false, ◌||◌, not, Option, none, some, List, [], ◌∷◌, ◌++◌, ◌==◌,
  if◌then◌else◌, Bytes, text, is_none, is_some, is_in, text_eq, Result, ok, err, refused, fault,
  ◌>>=◌, ◌>>◌, reject_if,
}
use science_ladder.Results.{RunReceipt}
use science_ladder.Runner.{
  RunnerJob, Status, queued, complete, JobRow, ResultRow, Runners, Env, Host, is_build, find_job,
  update_job, find_result,
}
use science_ladder.Runner.Jobs.{is_running, is_before}
use science_ladder.Runner.Bindings.{bad_bindings, check_outcome}
use science_ladder.Runner.Builds.{Builds, check_build, commit_build}
use science_ladder.Runner.Settle.{
  accepted, Answer, accepted, duplicate, retrying, needed, add_task, settle,
}

-- The token of the row; a token that was cleared is an error of the database driver.
abbrev pub check_token : Bytes → Option Bytes → Result (Unit {0})
check_token given none = err fault
check_token given (some expected) =
    reject_if (not (text_eq given expected)) (refused 403 "result_capability_invalid")

abbrev pub is_held_by : Bytes → Option Bytes → Bool
is_held_by host none = false
is_held_by host (some h) = text_eq h host

abbrev pub has_lease : Option ℕ → Bool
has_lease lease = not (is_none lease)

unfoldable pub is_stale : Env → Host → RunReceipt → JobRow → Bool
unfolding text_eq
is_stale env host run j =
    not (is_running j.status)
    || not (is_held_by host.id j.host_id)
    || not (has_lease j.lease_expires_at)
    || is_before j.lease_expires_at env.now
    || not (j.fence == run.fencing_token)

-- After an infrastructure fault the job waits again, and excludes the host.
unfoldable pub requeue_row : Bytes → JobRow → JobRow
requeue_row host j = record j {
  status = queued;
  fence = j.fence + 1;
  host_id = none;
  lease_expires_at = none;
  payload = record j.payload { excluded_host_ids = j.payload.excluded_host_ids ++ host ∷ [] };
}

unfoldable pub complete_row : JobRow → JobRow
complete_row j = record j { status = complete; lease_expires_at = none }

abbrev pub has_digest : Bytes → List ResultRow → Bool
has_digest digest [] = false
has_digest digest (r ∷ rs) = text_eq r.digest digest || has_digest digest rs

-- `ON CONFLICT DO NOTHING`
abbrev pub add_receipt : Bytes → List Bytes → List Bytes
add_receipt digest receipts = if is_in digest receipts then receipts else digest ∷ receipts

-- The result, its receipt, and the row that is complete. The job is a primary key of
-- `runner_results`, and the digest is unique.
unfoldable pub store_result : RunnerJob → RunReceipt → Bytes → Runners → Result Runners
unfolding find_result update_job complete_row text_eq
store_result job run digest db = do
  reject_if (is_some (find_result job.id db.results) || has_digest digest db.results) fault
  ok (record db {
    results = record { job_id = job.id; digest = digest; run = run } ∷ db.results;
    receipts = add_receipt digest db.receipts;
    queue = add_task (text "sign_receipt") digest db.queue;
    jobs = update_job job.id complete_row db.jobs;
  })

unfoldable pub finish :
    Builds
    → Env
    → Host
    → RunnerJob
    → RunReceipt
    → Bytes
    → Bytes
    → Runners
    → Result (Answer × Runners)
unfolding check_build check_outcome store_result commit_build settle
finish builds env host job run digest version db = do
  check_build builds host job run
  check_outcome env run job
  stored ← store_result job run digest db
  let built = (do
    db' ← commit_build builds env job run digest version stored
    ok (accepted true, db'))
  let settled = settle env host job run version stored
  (if is_build job.purpose then built else settled)

-- A result for the lease that is current.
unfoldable pub receive :
    Builds → Env → Host → RunReceipt → Bytes → JobRow → Runners → Result (Answer × Runners)
unfolding bad_bindings update_job requeue_row finish text_eq
receive builds env host run digest j db =
    let finished = finish builds env host j.payload run digest j.version_id db in
    do
      bound ← env.job_digest j.payload
      reject_if (bad_bindings run j.payload bound) (refused 422 "run_bindings_mismatch")
      (if text_eq run.outcome (text "infrastructure_fault")
          then ok
              (retrying, record db { jobs = update_job run.job_id (requeue_row host.id) db.jobs })
          else finished)

abbrev pub is_complete : Status → Bool
is_complete complete = true
is_complete _ = false

-- A job that is complete takes only the very result that it has.
unfoldable pub repeat_result : RunReceipt → Bytes → Runners → Result (Answer × Runners)
unfolding find_result text_eq
repeat_result run digest db = do
  stored ← needed (find_result run.job_id db.results)
  reject_if (not (text_eq stored.digest digest)) (refused 409 "result_conflict")
  ok (duplicate, db)

unfoldable pub commit_result :
    Builds → Env → Host → Bytes → RunReceipt → Runners → Result (Answer × Runners)
unfolding find_job repeat_result is_stale receive
commit_result builds env host token run db = do
  digest ← env.run_digest run
  j ← needed (find_job run.job_id db.jobs)
  check_token (env.hash token) j.result_token_hash
  (if is_complete j.status then repeat_result run digest db else do
    reject_if (is_stale env host run j) (refused 409 "stale_runner_lease")
    receive builds env host run digest j db)
