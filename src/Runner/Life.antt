-- ===== src/Runner/Life.antt =====
-- That the rows refine the life of a job, and what follows for results that come late.
use science_ladder.Base.{ℕ, ◌≤◌, ◌<◌, ◌≡◌, refl, sym, ap, ◌∙◌, some, arith, some_inj, Bytes, ok}
use science_ladder.Results.{RunReceipt}
use science_ladder.Runner.{
  Status, queued, running, complete, attention_required, cancelled, JobRow, ResultRow, Runners, Env,
  Host, find_job, find_result,
}
use science_ladder.Runner.Jobs.{recover_runner_leases}
use science_ladder.Runner.Commit.{commit_result}
use science_ladder.Runner.Settle.{Answer, duplicate}
use science_ladder.Runner.Builds.{Builds}
use science_ladder.Runner.Cancel.{cancel_jobs}
use science_ladder.Runner.Rows.{IsKeyed}
use science_ladder.Runner.AllRows.{
  maybe_recovered, find_job-recover_rows, maybe_cancelled, find_job-cancel_rows,
}
use science_ladder.Runner.Changes.{again, current, commit_result-Taken}
use science_ladder.Runner.Phases.{
  Phase, waiting, held, done, stuck, phase, phase_of, Move, stays, claims, loses, gives_up,
  finishes, off, stops_waiting, stops_held, stops_stuck, Step, prepares, cancels, queues, recovers,
  takes, results_in,
}
use science_ladder.Runner.Moves.{
  Moved-same, Change-Moved, taken-Moved, queued-Moved, prepared-Moved,
}
use science_ladder.Runner.RowMoves.{recovered-Move, cancelled-Move}
use science_ladder.Runner.Keyed.{Step-IsKeyed}

-- Whatever transaction writes the rows of jobs (a job is queued, leases are recovered, a host claims
-- a job, a result comes in, an editor cancels), where the signed job of each row is the job of that
-- row, the row of a job is still there after it, and the phase of the job, told by its status, fence
-- and host, has stayed or made a move of its life.
pub Step-Move :
    (db db' : Runners) (id : Bytes) (j : JobRow)
    → Step db db'
    → IsKeyed db.jobs
    → find_job id db.jobs ≡ some j
    → (j' : JobRow) × (find_job id db'.jobs ≡ some j') × Move (phase_of j) (phase_of j')
unfolding recover_runner_leases cancel_jobs
Step-Move db db' id j (queues job version submission h) k found =
    queued-Moved job version submission db db' id j h found
Step-Move db db' id j (prepares is_queued job version h) k found =
    prepared-Moved is_queued job version db db' id j h found
Step-Move db db' id j (cancels version) k found = (
  maybe_cancelled version j,
  find_job-cancel_rows version id db.jobs found,
  cancelled-Move version j,
)
Step-Move db db' id j (recovers now) k found = (
  maybe_recovered now db.results j,
  find_job-recover_rows now db.results id db.jobs found,
  recovered-Move now db.results j,
)
Step-Move db db' id j (takes host job fence token expiry h) k found =
    taken-Moved host job fence token expiry db db' id j h found
Step-Move db db' id j (results_in builds env host token run {answer} h) k found =
    elim (commit_result-Taken builds env host token run db h) [
      | again _ same _ _ _ ↦
          Moved-same id j db'.jobs (ap (λ (d : Runners). find_job id d.jobs) same ∙ found)
      | current x at fenced change ↦
          Change-Moved db.jobs run.job_id x db'.jobs id j k at change found
    ]

-- Any number of steps.
pub data Reach (db : Runners) : Runners → Type 0 where
  here : Reach db db
  further : {mid db' : Runners} → Reach db mid → Step mid db' → Reach db db'

abbrev fence_of : Phase → ℕ
fence_of (waiting f) = f
fence_of (held f h) = f
fence_of (done f) = f
fence_of (stuck f) = f
fence_of (off f) = f

Move-fence : {p q : Phase} → Move p q → fence_of p ≤ fence_of q
Move-fence stays = omega arith
Move-fence claims = omega arith
Move-fence loses = omega arith
Move-fence gives_up = omega arith
Move-fence finishes = omega arith
Move-fence stops_waiting = omega arith
Move-fence stops_held = omega arith
Move-fence stops_stuck = omega arith

phase_fence : (j : JobRow) → fence_of (phase_of j) ≡ j.fence
phase_fence j = of_status j.status
  where
    of_status : (s : Status) → fence_of (phase s j.fence j.host_id) ≡ j.fence
    of_status queued = refl
    of_status running = refl
    of_status complete = refl
    of_status attention_required = refl
    of_status cancelled = refl

pub Reach-IsKeyed : {db db' : Runners} → Reach db db' → IsKeyed db.jobs → IsKeyed db'.jobs
Reach-IsKeyed here k = k
Reach-IsKeyed (further {mid} {db'} r s) k = Step-IsKeyed mid db' s (Reach-IsKeyed r k)

Reach-fence :
    {db db' : Runners} (id : Bytes) (j : JobRow)
    → Reach db db'
    → IsKeyed db.jobs
    → find_job id db.jobs ≡ some j
    → (j' : JobRow) × (find_job id db'.jobs ≡ some j') × (j.fence ≤ j'.fence)
Reach-fence id j here k found = (j, found, omega arith)
Reach-fence id j (further {mid} {db'} r s) k found =
    let (x, at, le) = Reach-fence id j r k found in
    let (y, at', move) = Step-Move mid db' id x s (Reach-IsKeyed r k) at in
    let more = Move-fence move in (y, at', omega (arith, le, more, phase_fence x, phase_fence y))

-- Where the signed job of each row is the job of that row: once a job has left a fence behind, and
-- whatever transactions write the rows after that, a result under that fence is never taken. Where
-- an answer is given at all, the answer is `duplicate`, the result is the one that is stored for the
-- job, by its digest, and no row is changed.
pub commit_result-stale :
    {db db' : Runners} (builds : Builds) (env : Env) (host : Host) (token : Bytes)
    (run : RunReceipt) (j : JobRow) {answer : Answer} {db'' : Runners}
    → IsKeyed db.jobs
    → find_job run.job_id db.jobs ≡ some j
    → run.fencing_token < j.fence
    → Reach db db'
    → commit_result builds env host token run db' ≡ ok (answer, db'')
    → (answer ≡ duplicate)
      × (db'' ≡ db')
      × (stored : ResultRow) × (find_result run.job_id db'.results ≡ some stored)
      × (env.run_digest run ≡ ok stored.digest)
commit_result-stale {db} {db'} builds env host token run j k found late r h =
    elim (commit_result-Taken builds env host token run db' h) [
      | again told same stored at digest ↦ (told, same, stored, at, digest)
      | current x at fenced change ↦
          let (y, at', le) = Reach-fence run.job_id j r k found in
          let one : x.fence ≡ y.fence =
            ap (λ (row : JobRow). row.fence) (some_inj (sym at ∙ at')) in
          absurd (ground (arith, one, le, late, fenced))
    ]
