-- ===== src/Runner/Phases.antt =====
-- The life of a job, as its fence and its holder tell it, and the steps of the platform.
use science_ladder.Base.{Bool, ℕ, ◌+◌, ◌≡◌, Option, Bytes, ok}
use science_ladder.Results.{RunReceipt}
use science_ladder.Runner.{
  RunnerJob, Status, queued, running, complete, attention_required, cancelled, JobRow, Runners, Env,
  Host,
}
use science_ladder.Runner.Jobs.{recover_runner_leases, queue_submission, queue_preparation}
use science_ladder.Runner.Claim.{take_job}
use science_ladder.Runner.Commit.{commit_result}
use science_ladder.Runner.Settle.{Answer}
use science_ladder.Runner.Builds.{Builds}
use science_ladder.Runner.Cancel.{cancel_jobs}

-- A job waits, is held by a host, is done, waits for an operator, or is called off.
pub data Phase : Type 0 where
  waiting : ℕ → Phase
  held : ℕ → Option Bytes → Phase
  done : ℕ → Phase
  stuck : ℕ → Phase
  off : ℕ → Phase

abbrev pub phase : Status → ℕ → Option Bytes → Phase
phase queued fence host = waiting fence
phase running fence host = held fence host
phase complete fence host = done fence
phase attention_required fence host = stuck fence
phase cancelled fence host = off fence

abbrev pub phase_of : JobRow → Phase
phase_of j = phase j.status j.fence j.host_id

-- The fence rises whenever a host loses a job and whenever a job is called off. What is done or off
-- stays so.
pub data Move : Phase → Phase → Type 0 where
  stays : {p : Phase} → Move p p
  claims : {f : ℕ} {h : Option Bytes} → Move (waiting f) (held f h)
  loses : {f : ℕ} {h : Option Bytes} → Move (held f h) (waiting (f + 1))
  gives_up : {f : ℕ} {h : Option Bytes} → Move (held f h) (stuck (f + 1))
  finishes : {f : ℕ} {h : Option Bytes} → Move (held f h) (done f)
  stops_waiting : {f : ℕ} → Move (waiting f) (off (f + 1))
  stops_held : {f : ℕ} {h : Option Bytes} → Move (held f h) (off (f + 1))
  stops_stuck : {f : ℕ} → Move (stuck f) (off (f + 1))

-- The transactions that write the rows of jobs, in whatever order requests and the timer come: a
-- submission or a preparation is queued, leases are recovered, a host claims a job, a result of any
-- job comes in, an editor cancels the jobs of a version.
pub data Step (db : Runners) : Runners → Type 0 where
  queues :
      {db' : Runners} (job : RunnerJob) (version submission : Bytes)
      → queue_submission job version submission db ≡ ok db'
      → Step db db'
  prepares :
      {db' : Runners} (is_queued : Bool) (job : RunnerJob) (version : Bytes)
      → queue_preparation is_queued job version db ≡ ok db'
      → Step db db'
  recovers : (now : ℕ) → Step db (recover_runner_leases now db)
  takes :
      {db' : Runners} (host : Host) (job : RunnerJob) (fence : ℕ) (token_hash : Bytes) (expiry : ℕ)
      → take_job job.id host job fence token_hash expiry db ≡ ok db'
      → Step db db'
  results_in :
      (builds : Builds) (env : Env) (host : Host) (token : Bytes) (run : RunReceipt)
      {answer : Answer} {db' : Runners}
      → commit_result builds env host token run db ≡ ok (answer, db')
      → Step db db'
  cancels : (version : Bytes) → Step db (cancel_jobs version db)
