-- ===== src/Runner/Keyed.antt =====
-- The signed job of each row stays the job of that row.
use science_ladder.Base.{
  Bool, true, false, [], ℕ, ◌≡◌, inl, inr, refl, sym, ap, ◌∙◌, not, none, List, Bool-cases, Bytes,
  text, ok, >>=-eq-ok, if_true, if_false, ok_inj, passed_guard, subst,
}
use science_ladder.Runner.{RunnerJob, JobRow, Runners, Host, find_job, update_job}
use science_ladder.Runner.Jobs.{
  recover_runner_leases, queue_submission, queue_preparation, new_row, insert_job,
  has_submission_job,
}
use science_ladder.Runner.Claim.{take_job, is_open, claim_row}
use science_ladder.Runner.Commit.{requeue_row, complete_row}
use science_ladder.Runner.Cancel.{cancel_jobs}
use science_ladder.Runner.Rows.{IsKeyed, update_job-IsKeyed, insert_job-IsKeyed}
use science_ladder.Runner.AllRows.{recover_rows-IsKeyed, cancel_rows-IsKeyed}
use science_ladder.Runner.Changes.{
  Change, kept, requeued, completed, confirmed, again, current, commit_result-Taken,
}
use science_ladder.Runner.Phases.{Step, prepares, cancels, queues, recovers, takes, results_in}

update-IsKeyed :
    (key : Bytes) (change : JobRow → JobRow) (jobs jobs' : List JobRow)
    → jobs' ≡ update_job key change jobs
    → ((y : JobRow) → (change y).id ≡ y.id)
    → ((y : JobRow) → y.id ≡ key → y.payload.id ≡ y.id → (change y).payload.id ≡ key)
    → IsKeyed jobs
    → IsKeyed jobs'
update-IsKeyed key change jobs jobs' e keeps keyed k =
    subst IsKeyed (sym e) (update_job-IsKeyed key change jobs keeps keyed k)

requeued-IsKeyed :
    (key host : Bytes) (jobs jobs' : List JobRow)
    → jobs' ≡ update_job key (requeue_row host) jobs
    → IsKeyed jobs
    → IsKeyed jobs'
unfolding requeue_row
requeued-IsKeyed key host jobs jobs' e k =
    update-IsKeyed key (requeue_row host) jobs jobs' e (λ y. refl) (λ y a b. b ∙ a) k

completed-IsKeyed :
    (key : Bytes) (jobs : List JobRow) → IsKeyed jobs → IsKeyed (update_job key complete_row jobs)
unfolding complete_row
completed-IsKeyed key jobs k =
    update-IsKeyed key complete_row jobs (update_job key complete_row jobs) refl (λ y. refl)
      (λ y a b. b ∙ a) k

Change-IsKeyed :
    (jobs : List JobRow) (key : Bytes) (x : JobRow) (jobs' : List JobRow)
    → Change jobs key x jobs'
    → IsKeyed jobs
    → IsKeyed jobs'
Change-IsKeyed jobs key x jobs' (kept e) k = subst IsKeyed (sym e) k
Change-IsKeyed jobs key x jobs' (requeued host active e) k =
    requeued-IsKeyed key host jobs jobs' e k
Change-IsKeyed jobs key x jobs' (completed active e) k =
    subst IsKeyed (sym e) (completed-IsKeyed x.payload.id jobs k)
Change-IsKeyed jobs key x jobs' (confirmed row active keyed put) k =
    insert_job-IsKeyed row (update_job x.payload.id complete_row jobs) jobs' put keyed
      (completed-IsKeyed x.payload.id jobs k)

taken-IsKeyed :
    (host : Host) (job : RunnerJob) (fence : ℕ) (token : Bytes) (expiry : ℕ) (db db' : Runners)
    → take_job job.id host job fence token expiry db ≡ ok db'
    → IsKeyed db.jobs
    → IsKeyed db'.jobs
unfolding take_job claim_row
taken-IsKeyed host job fence token expiry db db' h k =
    let (_, put) = passed_guard (not (is_open fence (find_job job.id db.jobs))) _ h in
    update-IsKeyed job.id (claim_row host.id job token expiry) db.jobs db'.jobs
      (sym (ap (λ (d : Runners). d.jobs) (ok_inj put))) (λ y. refl) (λ y a b. refl) k

queued-IsKeyed :
    (job : RunnerJob) (version submission : Bytes) (db db' : Runners)
    → queue_submission job version submission db ≡ ok db'
    → IsKeyed db.jobs
    → IsKeyed db'.jobs
unfolding queue_submission
queued-IsKeyed job version submission db db' h k =
    elim (Bool-cases (has_submission_job submission db.jobs)) [
      | inl e ↦ subst (λ (d : Runners). IsKeyed d.jobs) (ok_inj (if_true _ _ _ e h)) k
      | inr e ↦
          let row = new_row job (text "submission") version submission none in
          let (jobs, put, h1) = >>=-eq-ok (insert_job row db.jobs) _ (if_false _ _ _ e h) in
          subst (λ (d : Runners). IsKeyed d.jobs) (ok_inj h1)
            (insert_job-IsKeyed row db.jobs jobs put refl k)
    ]

prepared-IsKeyed :
    (is_queued : Bool) (job : RunnerJob) (version : Bytes) (db db' : Runners)
    → queue_preparation is_queued job version db ≡ ok db'
    → IsKeyed db.jobs
    → IsKeyed db'.jobs
unfolding queue_preparation
prepared-IsKeyed true job version db db' h k = subst (λ (d : Runners). IsKeyed d.jobs) (ok_inj h) k
prepared-IsKeyed false job version db db' h k =
    let row = new_row job job.purpose version [] none in
    let (jobs, put, h1) = >>=-eq-ok (insert_job row db.jobs) _ h in
    subst (λ (d : Runners). IsKeyed d.jobs) (ok_inj h1)
      (insert_job-IsKeyed row db.jobs jobs put refl k)

pub Step-IsKeyed : (db db' : Runners) → Step db db' → IsKeyed db.jobs → IsKeyed db'.jobs
unfolding recover_runner_leases cancel_jobs
Step-IsKeyed db db' (queues job version submission h) k =
    queued-IsKeyed job version submission db db' h k
Step-IsKeyed db db' (prepares is_queued job version h) k =
    prepared-IsKeyed is_queued job version db db' h k
Step-IsKeyed db db' (cancels version) k = cancel_rows-IsKeyed version db.jobs k
Step-IsKeyed db db' (recovers now) k = recover_rows-IsKeyed now db.results db.jobs k
Step-IsKeyed db db' (takes host job fence token expiry h) k =
    taken-IsKeyed host job fence token expiry db db' h k
Step-IsKeyed db db' (results_in builds env host token run h) k =
    elim (commit_result-Taken builds env host token run db h) [
      | again _ same _ _ _ ↦ subst (λ (d : Runners). IsKeyed d.jobs) (sym same) k
      | current x at fenced change ↦ Change-IsKeyed db.jobs run.job_id x db'.jobs change k
    ]
