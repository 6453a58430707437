-- ===== src/Runner/Claim.antt =====
-- internal/platform/runners.go: the end of `claimRunnerJob`. The row is selected in one transaction,
-- and claimed in a later one only if its status and fence are still those that were read.
use science_ladder.Base.{
  ℕ, ◌+◌, Bool, true, false, ◌&&◌, not, Option, none, some, ◌==◌, Bytes, Result, ok, refused, ◌>>◌,
  reject_if,
}
use science_ladder.Runner.{
  RunnerJob, Status, queued, running, JobRow, Runners, Host, find_job, update_job,
}

abbrev pub is_queued : Status → Bool
is_queued queued = true
is_queued _ = false

-- The signed job: bound to the host's group, the fence that was read, and the end of the lease.
abbrev pub claimed_job : RunnerJob → Host → ℕ → ℕ → RunnerJob
claimed_job job host fence expiry = record job {
  required_host_group = host.group;
  fencing_token = fence;
  expires_at = expiry;
}

unfoldable pub claim_row : Bytes → RunnerJob → Bytes → ℕ → JobRow → JobRow
claim_row host job token_hash expiry j = record j {
  status = running;
  host_id = some host;
  payload = job;
  result_token_hash = some token_hash;
  lease_expires_at = some expiry;
  attempts = j.attempts + 1;
}

-- `WHERE id=$1 AND status='queued' AND fence=$7`
abbrev pub is_open : ℕ → Option JobRow → Bool
is_open fence none = false
is_open fence (some j) = is_queued j.status && j.fence == fence

-- The compare-and-set; `job` is the payload that was signed.
unfoldable pub take_job : Bytes → Host → RunnerJob → ℕ → Bytes → ℕ → Runners → Result Runners
unfolding find_job update_job claim_row
take_job id host job fence token_hash expiry db = do
  reject_if (not (is_open fence (find_job id db.jobs))) (refused 409 "job_claimed")
  ok (record db { jobs = update_job id (claim_row host.id job token_hash expiry) db.jobs })
