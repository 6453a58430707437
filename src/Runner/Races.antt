-- ===== src/Runner/Races.antt =====
-- Claims that race, and jobs that are done.
use science_ladder.Base.{
  ℕ, ◌≡◌, refl, sym, ap, ◌∙◌, true, false, not, some, Bytes, ok, err, refused, was_true, ok_inj,
  passed_guard,
}
use science_ladder.Runner.{
  RunnerJob, Status, queued, running, complete, attention_required, cancelled, JobRow, Runners,
  Host, find_job, update_job,
}
use science_ladder.Runner.Claim.{is_open, claim_row, take_job}
use science_ladder.Runner.Commit.{is_complete}
use science_ladder.Runner.Rows.{IsKeyed, find_job-update_job}
use science_ladder.Runner.Phases.{
  Phase, done, phase, phase_of, Move, stays, claims, loses, gives_up, finishes, stops_waiting,
  stops_held, stops_stuck,
}
use science_ladder.Runner.Moves.{queued_when}
use science_ladder.Runner.Life.{Reach, here, further, Step-Move, Reach-IsKeyed}

claimed_not_open :
    (fence : ℕ) (host : Bytes) (job : RunnerJob) (token : Bytes) (expiry : ℕ) (x : JobRow)
    → is_open fence (some (claim_row host job token expiry x)) ≡ false
unfolding claim_row
claimed_not_open fence host job token expiry x = refl

closed_refuses :
    (id : Bytes) (host : Host) (job : RunnerJob) (fence : ℕ) (token : Bytes) (expiry : ℕ)
    (db : Runners)
    → is_open fence (find_job id db.jobs) ≡ false
    → take_job id host job fence token expiry db ≡ err (refused 409 "job_claimed")
unfolding take_job
closed_refuses id host job fence token expiry db h = rw h refl

taken_jobs :
    (id : Bytes) (host : Host) (job : RunnerJob) (fence : ℕ) (token : Bytes) (expiry : ℕ)
    (db db' : Runners)
    → take_job id host job fence token expiry db ≡ ok db'
    → (x : JobRow) × (find_job id db.jobs ≡ some x)
      × (update_job id (claim_row host.id job token expiry) db.jobs ≡ db'.jobs)
unfolding take_job
taken_jobs id host job fence token expiry db db' h =
    let (free, put) = passed_guard (not (is_open fence (find_job id db.jobs))) _ h in
    let (x, at, _) =
      queued_when fence (find_job id db.jobs)
        (was_true (is_open fence (find_job id db.jobs)) free) in
    (x, at, ap (λ (d : Runners). d.jobs) (ok_inj put))

claim_row-id :
    (host : Bytes) (job : RunnerJob) (token : Bytes) (expiry : ℕ) (j : JobRow)
    → (claim_row host job token expiry j).id ≡ j.id
unfolding claim_row
claim_row-id host job token expiry j = refl

-- After a claim that succeeds, any other claim of the same job is refused with 409, whatever fence it
-- has read: of two hosts that race, one gets the job.
pub take_job-take_job :
    (id : Bytes) (host other : Host) (job job' : RunnerJob) (fence fence' : ℕ)
    (token token' : Bytes) (expiry expiry' : ℕ) (db db' : Runners)
    → take_job id host job fence token expiry db ≡ ok db'
    → take_job id other job' fence' token' expiry' db' ≡ err (refused 409 "job_claimed")
take_job-take_job id host other job job' fence fence' token token' expiry expiry' db db' h =
    let (x, at, e) = taken_jobs id host job fence token expiry db db' h in
    let now : find_job id db'.jobs ≡ some (claim_row host.id job token expiry x) =
      ap (find_job id) (sym e)
      ∙ find_job-update_job id (claim_row host.id job token expiry) db.jobs
          (claim_row-id host.id job token expiry x) at in
    closed_refuses id other job' fence' token' expiry' db'
      (ap (is_open fence') now ∙ claimed_not_open fence' host.id job token expiry x)

done_when : (j : JobRow) → is_complete j.status ≡ true → phase_of j ≡ done j.fence
done_when j h = of_status j.status h
  where
    of_status : (s : Status) → is_complete s ≡ true → phase s j.fence j.host_id ≡ done j.fence
    of_status complete h = refl
    of_status queued h = cc
    of_status running h = cc
    of_status attention_required h = cc
    of_status cancelled h = cc

complete_when :
    (j : JobRow) (f : ℕ) → phase_of j ≡ done f → (is_complete j.status ≡ true) × (j.fence ≡ f)
complete_when j f h = of_status j.status h
  where
    of_status :
        (s : Status) → phase s j.fence j.host_id ≡ done f → (is_complete s ≡ true) × (j.fence ≡ f)
    of_status complete h = (refl, cc)
    of_status queued h = cc
    of_status running h = cc
    of_status attention_required h = cc
    of_status cancelled h = cc

done-Move : {p q : Phase} (f : ℕ) → Move p q → p ≡ done f → q ≡ done f
done-Move f stays e = e
done-Move f claims e = cc
done-Move f loses e = cc
done-Move f gives_up e = cc
done-Move f finishes e = cc
done-Move f stops_waiting e = cc
done-Move f stops_held e = cc
done-Move f stops_stuck e = cc

-- Where the signed job of each row is the job of that row, a job that is complete stays complete,
-- under the same fence, whatever transactions write the rows of jobs.
pub Reach-complete :
    (db db' : Runners) (id : Bytes) (j : JobRow)
    → Reach db db'
    → IsKeyed db.jobs
    → find_job id db.jobs ≡ some j
    → is_complete j.status ≡ true
    → (j' : JobRow) × (find_job id db'.jobs ≡ some j')
      × (is_complete j'.status ≡ true)
      × (j'.fence ≡ j.fence)
Reach-complete db db' id j here k found ended = (j, found, ended, refl)
Reach-complete db db' id j (further {mid} r s) k found ended =
    let (x, at, over, same) = Reach-complete db mid id j r k found ended in
    let (y, at', move) = Step-Move mid db' id x s (Reach-IsKeyed r k) at in
    let (over', same') = complete_when y x.fence (done-Move x.fence move (done_when x over)) in
    (y, at', over', same' ∙ same)
