-- ===== src/Runner/Settle.antt =====
-- internal/platform/runners.go: what the transaction of `runnerResult` does with a result that is
-- stored: an incident, a job that confirms it, or the final outcome of the submission.
use science_ladder.Base.{
  Bool, true, false, ◌&&◌, ◌||◌, not, Option, none, some, List, [], ◌∷◌, ltb, if◌then◌else◌, Bytes,
  text, is_empty, text_eq, Result, ok, err, refused, fault, ◌>>=◌, ◌>>◌, reject_if,
}
use science_ladder.Compare.{confirmed_score}
use science_ladder.Manifest.{has_mode}
use science_ladder.Results.{RunReceipt}
use science_ladder.Results.Measured.{confirm_measured_runs}
use science_ladder.Runner.{
  RunnerJob, JobRow, ResultRow, SubmissionRow, Runners, Env, Host, is_independent, find_result,
}
use science_ladder.Runner.Jobs.{new_row, insert_job, set_status}

-- What the runner is told.
pub data Answer : Type 0 where
  duplicate : Answer
  retrying : Answer
  incident : Answer
  accepted : Bool → Answer  -- whether it is final

abbrev pub needed {ℓ} : {A : Type ℓ} → Option A → Result A
needed none = err fault
needed (some a) = ok a

abbrev pub has_task : Bytes → Bytes → List (Bytes × Bytes) → Bool
has_task kind id [] = false
has_task kind id ((k, i) ∷ rest) = (text_eq k kind && text_eq i id) || has_task kind id rest

-- `enqueue`
abbrev pub add_task : Bytes → Bytes → List (Bytes × Bytes) → List (Bytes × Bytes)
add_task kind id queue = if has_task kind id queue then queue else (kind, id) ∷ queue

abbrev pub is_timed : RunnerJob → Bool
is_timed job = has_mode (text "performance") job.manifest.evaluation

-- The outcome where the two runs disagree.
abbrev pub disagreement : RunnerJob → Bytes
disagreement job = if is_timed job then text "measurement_inconclusive" else text "nondeterministic"

abbrev pub settled_score : RunnerJob → Result Bytes → Bytes × Bytes
settled_score job (ok score) = (text "valid", score)
settled_score job (err why) = (disagreement job, [])

-- The outcome and the score that two runs confirm.
unfoldable pub confirm_outcome :
    Env → Host → RunnerJob → RunReceipt → RunReceipt → Result (Bytes × Bytes)
unfolding confirm_measured_runs confirmed_score text_eq
confirm_outcome env host job first_run run =
    let measured = confirm_measured_runs env.unicode env.json first_run run job.manifest in
    let ranked = confirmed_score first_run.score_ticks run.score_ticks job.manifest.metric in
    do
      reject_if (is_independent job && text_eq first_run.host_group host.group)
          (refused 422 "confirmation_not_independent")
      reject_if
          (text_eq first_run.job_id run.job_id
            || text_eq first_run.id run.id
            || ltb run.created_at first_run.created_at)
          (refused 422 "confirmation_not_fresh")
      ok (
          if not (text_eq run.outcome first_run.outcome)
          then (disagreement job, [])
          else if text_eq run.outcome (text "valid")
          then settled_score job (if is_timed job then measured else ranked)
          else (run.outcome, run.score_ticks))

-- The job of the confirmation.
abbrev pub confirmation_of : Env → Host → RunnerJob → RunnerJob
confirmation_of env host job = record job {
  id = env.new_id;
  created_at = env.now;
  purpose = text "confirmation";
  required_host_group = [];
  excluded_host_ids = if is_independent job then host.id ∷ [] else [];
  fencing_token = 1;
}

unfoldable pub ask_confirmation : Env → Host → RunnerJob → Bytes → Runners → Result Runners
unfolding insert_job set_status text_eq
ask_confirmation env host job version db = do
  jobs ←
      insert_job
        (new_row (confirmation_of env host job) (text "confirmation") version job.submission_id
          (if is_independent job then some host.group else none))
        db.jobs
  ok (record db {
    jobs = jobs;
    submissions = set_status job.submission_id (text "confirmation_running") db.submissions;
  })

-- The result of the submission's first job.
abbrev pub result_run : Option ResultRow → Option RunReceipt → Option RunReceipt
result_run none other = other
result_run (some r) other = some r.run

unfoldable pub find_primary : Bytes → List ResultRow → List JobRow → Option RunReceipt
unfolding find_result text_eq
find_primary submission results [] = none
find_primary submission results (j ∷ js) =
    let rest = find_primary submission results js in
    if text_eq j.submission_id submission && text_eq j.purpose (text "submission")
    then result_run (find_result j.id results) rest
    else rest

unfoldable pub set_outcome :
    Bytes → Bytes → Bytes → Option Bytes → List SubmissionRow → List SubmissionRow
unfolding text_eq
set_outcome id status outcome score [] = []
set_outcome id status outcome score (s ∷ ss) =
    let rest = set_outcome id status outcome score ss in
    if text_eq s.id id
    then record s { status = status; outcome = outcome; score_ticks = score } ∷ ss
    else s ∷ rest

abbrev pub ticks_of : Bytes → Bytes → Option Bytes
ticks_of outcome score =
    if not (is_empty score) && text_eq outcome (text "valid") then some score else none

-- A submission with its final outcome waits for adjudication.
unfoldable pub finalize : RunnerJob → Bytes → Bytes → Bytes → Runners → Runners
unfolding set_outcome text_eq
finalize job version outcome score db = record db {
  submissions =
      set_outcome job.submission_id (text "validated") outcome (ticks_of outcome score)
        db.submissions;
  paused = if text_eq outcome (text "nondeterministic") then version ∷ db.paused else db.paused;
  queue = add_task (text "adjudicate") job.submission_id db.queue;
}

unfoldable pub set_fault : Bytes → List SubmissionRow → List SubmissionRow
unfolding text_eq
set_fault id [] = []
set_fault id (s ∷ ss) =
    let rest = set_fault id ss in
    if text_eq s.id id
    then record s { status = text "challenge_fault"; outcome = text "pending" } ∷ ss
    else s ∷ rest

unfoldable pub report_incident : RunnerJob → Bytes → Runners → Runners
unfolding set_fault
report_incident job version db = record db {
  submissions = set_fault job.submission_id db.submissions;
  paused = version ∷ db.paused;
  incidents = version ∷ db.incidents;
}

unfoldable pub confirm : Env → Host → RunnerJob → RunReceipt → Bytes → Runners → Result Runners
unfolding find_primary confirm_outcome finalize
confirm env host job run version db = do
  first_run ← needed (find_primary job.submission_id db.results db.jobs)
  (outcome, score) ← confirm_outcome env host job first_run run
  ok (finalize job version outcome score db)

unfoldable pub settle :
    Env → Host → RunnerJob → RunReceipt → Bytes → Runners → Result (Answer × Runners)
unfolding ask_confirmation confirm finalize report_incident text_eq
settle env host job run version db =
    let asked = (do db' ← ask_confirmation env host job version db; ok (accepted false, db')) in
    let confirmed = (do db' ← confirm env host job run version db; ok (accepted true, db')) in
    if text_eq run.outcome (text "challenge_fault")
    then ok (incident, report_incident job version db)
    else if text_eq run.outcome (text "valid") && text_eq job.purpose (text "submission")
    then asked
    else if text_eq job.purpose (text "confirmation")
    then confirmed
    else ok (accepted true, finalize job version run.outcome run.score_ticks db)
