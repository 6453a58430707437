-- ===== src/Runner/Moves.antt =====
-- How each transaction moves a job.
use science_ladder.Base.{
  Bool, false, [], ℕ, ◌≡◌, inl, inr, refl, sym, ap, ◌∙◌, true, not, Option, none, some, List,
  Bool-cases, some_inj, and_parts, Bytes, text, text_eq, text_eq→eq, ok, >>=-eq-ok, was_true,
  if_true, if_false, ok_inj, passed_guard, subst,
}
use science_ladder.Runner.{RunnerJob, JobRow, Runners, Host, find_job, update_job}
use science_ladder.Runner.Jobs.{
  is_running, queue_submission, queue_preparation, new_row, insert_job, has_submission_job,
}
use science_ladder.Runner.Claim.{is_queued, take_job, is_open, claim_row}
use science_ladder.Runner.Commit.{requeue_row, complete_row}
use science_ladder.Runner.Rows.{
  find_job-update_job, find_job-update_job_other, IsKeyed, find_job-IsKeyed, insert_job-find_job,
}
use science_ladder.Runner.Changes.{Change, kept, requeued, completed, confirmed}
use science_ladder.Runner.Phases.{phase_of, Move, stays}
use science_ladder.Runner.RowMoves.{
  requeue_row-Move, complete_row-Move, claim_row-Move, requeue_row-id, complete_row-id,
  claim_row-id,
}

-- The row of a job after a step, and its move.
abbrev pub Moved : Bytes → JobRow → List JobRow → Type 0
Moved id j jobs' = (j' : JobRow) × (find_job id jobs' ≡ some j') × Move (phase_of j) (phase_of j')

pub Moved-same :
    (id : Bytes) (j : JobRow) (jobs' : List JobRow) → find_job id jobs' ≡ some j → Moved id j jobs'
Moved-same id j jobs' h = (j, h, stays)

-- An update whose change is a move, of the row with the key that is found.
update-Moved :
    (key : Bytes) (change : JobRow → JobRow) (id : Bytes) (jobs : List JobRow) (x j : JobRow)
    → ((y : JobRow) → (change y).id ≡ y.id)
    → find_job key jobs ≡ some x
    → Move (phase_of x) (phase_of (change x))
    → find_job id jobs ≡ some j
    → Moved id j (update_job key change jobs)
update-Moved key change id jobs x j keeps found move h = elim (Bool-cases (text_eq key id)) [
  | inl e ↦
      let same_id = text_eq→eq key id e in
      let same : x ≡ j = some_inj (sym found ∙ (ap (λ (k : Bytes). find_job k jobs) same_id ∙ h)) in
      (
        change x,
        sym (ap (λ (k : Bytes). find_job k (update_job key change jobs)) same_id)
            ∙ find_job-update_job key change jobs (keeps x) found,
        subst (λ (y : JobRow). Move (phase_of y) (phase_of (change x))) same move,
      )
  | inr e ↦
      Moved-same id j (update_job key change jobs)
        (find_job-update_job_other key change id jobs keeps e ∙ h)
]

completed-Moved :
    (id : Bytes) (jobs : List JobRow) (key : Bytes) (x j : JobRow)
    → IsKeyed jobs
    → find_job key jobs ≡ some x
    → is_running x.status ≡ true
    → find_job id jobs ≡ some j
    → Moved id j (update_job x.payload.id complete_row jobs)
completed-Moved id jobs key x j k found active h =
    let named : x.payload.id ≡ key = find_job-IsKeyed key jobs k found in
    update-Moved x.payload.id complete_row id jobs x j complete_row-id
      (ap (λ (s : Bytes). find_job s jobs) named ∙ found) (complete_row-Move x active) h

inserted-Moved :
    (row : JobRow) (id : Bytes) (j : JobRow) (jobs jobs' : List JobRow)
    → insert_job row jobs ≡ ok jobs'
    → Moved id j jobs
    → Moved id j jobs'
inserted-Moved row id j jobs jobs' put (j', found, move) =
    (j', insert_job-find_job row id jobs jobs' put found, move)

pub Change-Moved :
    (jobs : List JobRow) (key : Bytes) (x : JobRow) (jobs' : List JobRow) (id : Bytes) (j : JobRow)
    → IsKeyed jobs
    → find_job key jobs ≡ some x
    → Change jobs key x jobs'
    → find_job id jobs ≡ some j
    → Moved id j jobs'
Change-Moved jobs key x jobs' id j k found (kept e) h =
    Moved-same id j jobs' (ap (find_job id) e ∙ h)
Change-Moved jobs key x jobs' id j k found (requeued host active e) h = subst (Moved id j) (sym e) (
    update-Moved key (requeue_row host) id jobs x j (requeue_row-id host) found
      (requeue_row-Move host x active) h)
Change-Moved jobs key x jobs' id j k found (completed active e) h =
    subst (Moved id j) (sym e) (completed-Moved id jobs key x j k found active h)
Change-Moved jobs key x jobs' id j k found (confirmed row active keyed put) h =
    inserted-Moved row id j (update_job x.payload.id complete_row jobs) jobs' put
      (completed-Moved id jobs key x j k found active h)

pub queued_when :
    (fence : ℕ) (o : Option JobRow)
    → is_open fence o ≡ true
    → (x : JobRow) × (o ≡ some x) × (is_queued x.status ≡ true)
queued_when fence none h = cc
queued_when fence (some x) h = (x, refl, (and_parts (is_queued x.status) _ h).0)

pub taken-Moved :
    (host : Host) (job : RunnerJob) (fence : ℕ) (token : Bytes) (expiry : ℕ) (db db' : Runners)
    (id : Bytes) (j : JobRow)
    → take_job job.id host job fence token expiry db ≡ ok db'
    → find_job id db.jobs ≡ some j
    → Moved id j db'.jobs
unfolding take_job
taken-Moved host job fence token expiry db db' id j h found =
    let (free, put) = passed_guard (not (is_open fence (find_job job.id db.jobs))) _ h in
    let (x, at, waits) =
      queued_when fence (find_job job.id db.jobs)
        (was_true (is_open fence (find_job job.id db.jobs)) free) in
    subst (Moved id j) (ap (λ (d : Runners). d.jobs) (ok_inj put)) (
      update-Moved job.id (claim_row host.id job token expiry) id db.jobs x j
        (claim_row-id host.id job token expiry) at (claim_row-Move host.id job token expiry x waits)
        found)

pub queued-Moved :
    (job : RunnerJob) (version submission : Bytes) (db db' : Runners) (id : Bytes) (j : JobRow)
    → queue_submission job version submission db ≡ ok db'
    → find_job id db.jobs ≡ some j
    → Moved id j db'.jobs
unfolding queue_submission
queued-Moved job version submission db db' id j h found =
    elim (Bool-cases (has_submission_job submission db.jobs)) [
      | inl e ↦
          subst (λ (d : Runners). Moved id j d.jobs) (ok_inj (if_true _ _ _ e h))
            (Moved-same id j db.jobs found)
      | inr e ↦
          let row = new_row job (text "submission") version submission none in
          let (jobs, put, h1) = >>=-eq-ok (insert_job row db.jobs) _ (if_false _ _ _ e h) in
          subst (λ (d : Runners). Moved id j d.jobs) (ok_inj h1)
            (inserted-Moved row id j db.jobs jobs put (Moved-same id j db.jobs found))
    ]

pub prepared-Moved :
    (is_queued : Bool) (job : RunnerJob) (version : Bytes) (db db' : Runners) (id : Bytes)
    (j : JobRow)
    → queue_preparation is_queued job version db ≡ ok db'
    → find_job id db.jobs ≡ some j
    → Moved id j db'.jobs
unfolding queue_preparation
prepared-Moved true job version db db' id j h found =
    subst (λ (d : Runners). Moved id j d.jobs) (ok_inj h) (Moved-same id j db.jobs found)
prepared-Moved false job version db db' id j h found =
    let row = new_row job job.purpose version [] none in
    let (jobs, put, h1) = >>=-eq-ok (insert_job row db.jobs) _ h in
    subst (λ (d : Runners). Moved id j d.jobs) (ok_inj h1)
      (inserted-Moved row id j db.jobs jobs put (Moved-same id j db.jobs found))
