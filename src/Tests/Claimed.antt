-- ===== src/Tests/Claimed.antt =====
-- A job that two hosts claim, a result that comes late, and a confirmation by another group.
use science_ladder.Base.{
  ◌≡◌, refl, true, false, none, some, [], ◌∷◌, arith, text, text_eq, ok, err, refused,
}
use science_ladder.Results.{RunReceipt}
use science_ladder.Runner.{RunnerJob, JobRow, Runners, Env, Host, find_job, update_job, find_result}
use science_ladder.Runner.Jobs.{
  new_row, recover_runner_leases, recover_rows, recover_row, recovered_payload, is_expired,
}
use science_ladder.Runner.Claim.{claimed_job, claim_row, take_job}
use science_ladder.Runner.Commit.{
  commit_result, repeat_result, is_complete, is_stale, receive, finish, store_result, complete_row,
}
use science_ladder.Runner.Bindings.{bad_bindings, check_outcome, check_evidence}
use science_ladder.Results.Evidence.{validate_run_measurement_evidence, run_evidence}
use science_ladder.Base.{Result}
use science_ladder.Runner.Settle.{Answer, settle, duplicate, finalize, set_outcome}
use science_ladder.Runner.Builds.{Builds, check_build}
use science_ladder.Runner.Rows.{IsKeyed}
use science_ladder.Runner.Phases.{Move, phase_of, takes, recovers, results_in, cancels}
use science_ladder.Runner.Cancel.{cancel_jobs}
use science_ladder.Runner.{ResultRow}
use science_ladder.Base.{◌<◌}
use science_ladder.Runner.Life.{Reach, Reach-IsKeyed}
use science_ladder.Runner.Life.{here, further, Step-Move, commit_result-stale}
use science_ladder.Runner.Keyed.{Step-IsKeyed}
use science_ladder.Runner.Races.{take_job-take_job, Reach-complete}
use science_ladder.Tests.Locked.{manifest, run, json, unicode, digest}

abbrev pub job : RunnerJob
job = record {
  parent_job_digest = [];
  verification_policy = text "independent";
  advisory_snapshot_digest = [];
  runtime_inventory_digest = [];
  acceptance_receipt_digest = digest;
  deployment_mode = text "local";
  official_acceptance = false;
  id = text "job-1";
  created_at = 10;
  expires_at = 0;
  purpose = text "submission";
  submission_id = text "sub";
  challenge_lock_digest = digest;
  artifact_digest = digest;
  suite_digest = digest;
  execution_profile_digest = digest;
  runner_epoch = text "1";
  fencing_token = 1;
  required_host_group = [];
  excluded_host_ids = [];
  manifest = manifest;
}

abbrev pub row : JobRow
row = new_row job (text "submission") (text "v") (text "sub") none

abbrev pub db : Runners
db = record {
  jobs = row ∷ [];
  results = [];
  submissions = record { id = text "sub"; status = []; outcome = []; score_ticks = none } ∷ [];
  receipts = [];
  queue = [];
  paused = [];
  incidents = [];
}

abbrev one : Host
one = record { id = text "host-1"; group = text "group-1"; execution_profile = digest }

abbrev pub two : Host
two = record { id = text "host-2"; group = text "group-2"; execution_profile = digest }

abbrev pub env : Env
env = record {
  hash = λ s. s;
  job_digest = λ j. ok digest;
  run_digest = λ r. ok r.id;
  new_id = text "new";
  now = 60;
  json = json;
  unicode = unicode;
}

-- A preparation that passes every test and is the first of its preflight.
abbrev builds : Builds
builds = record {
  check = λ host j r. ok tt;
  write = λ j r digest version d. ok (true, d.receipts, d.queue);
}

abbrev taken_row : JobRow
taken_row = claim_row one.id (claimed_job job one 1 900) (text "token") 900 row

abbrev taken : Runners
taken = record db { jobs = taken_row ∷ [] }

claimed : take_job (text "job-1") one (claimed_job job one 1 900) 1 (text "token") 900 db ≡ ok taken
unfolding take_job find_job update_job claim_row text_eq
claimed = refl

found : find_job (text "job-1") db.jobs ≡ some row
unfolding find_job text_eq
found = refl

keyed : IsKeyed db.jobs
keyed = (refl, tt)

take_job-take_job_example :
    take_job (text "job-1") two (claimed_job job two 1 950) 1 (text "other") 950 taken
    ≡ err (refused 409 "job_claimed")
take_job-take_job_example =
    take_job-take_job (text "job-1") one two (claimed_job job one 1 900) (claimed_job job two 1 950)
      1 1 (text "token") (text "other") 900 950 db taken claimed

Step-Move_example :
    (j' : JobRow) × (find_job (text "job-1") taken.jobs ≡ some j')
    × Move (phase_of row) (phase_of j')
Step-Move_example =
    Step-Move db taken (text "job-1") row
      (takes one (claimed_job job one 1 900) 1 (text "token") 900 claimed) keyed found

-- The first host's lease runs out, and the job waits again under the next fence.
abbrev waiting_db : Runners
waiting_db = recover_runner_leases 950 taken

abbrev waiting_row : JobRow
waiting_row = recover_row taken_row

waiting_found : find_job (text "job-1") waiting_db.jobs ≡ some waiting_row
unfolding recover_runner_leases recover_rows recover_row recovered_payload is_expired find_result
    find_job claim_row text_eq
waiting_found = refl

waiting-IsKeyed : IsKeyed waiting_db.jobs
unfolding claim_row
waiting-IsKeyed = Step-IsKeyed taken waiting_db (recovers 950) (refl, tt)

-- The second host claims the job and sends a result, which is final.
abbrev second_job : RunnerJob
second_job = claimed_job waiting_row.payload two 2 1900

abbrev second_row : JobRow
second_row = claim_row two.id second_job (text "token") 1900 waiting_row

abbrev second_db : Runners
second_db = record db { jobs = second_row ∷ [] }

second_claim : take_job second_job.id two second_job 2 (text "token") 1900 waiting_db ≡ ok second_db
unfolding take_job recover_runner_leases recover_rows recover_row recovered_payload is_expired
    find_result find_job update_job claim_row text_eq
second_claim = refl

abbrev second_run : RunReceipt
second_run = record (run (text "job-1")) {
  validator_result = none;
  outcome = text "resource_limit";
  fencing_token = 2;
}

abbrev answer_of : Result (Answer × Runners) → Answer × Runners
answer_of (ok p) = p
answer_of (err e) = (duplicate, db)

abbrev done_pair : Answer × Runners
done_pair = answer_of (commit_result builds env two (text "token") second_run second_db)

second_result :
    commit_result builds env two (text "token") second_run second_db ≡ ok (done_pair.0, done_pair.1)
unfolding commit_result find_job is_stale receive bad_bindings finish check_build check_outcome
    check_evidence validate_run_measurement_evidence run_evidence store_result find_result
    update_job complete_row settle finalize set_outcome claim_row recover_row recovered_payload
    text_eq
second_result = refl

abbrev done_db : Runners
done_db = done_pair.1

reached : Reach waiting_db done_db
reached =
    further (further here (takes two second_job 2 (text "token") 1900 second_claim))
      (results_in builds env two (text "token") second_run second_result)

-- The first host sends its result at last.
late_answer :
    commit_result builds env one (text "token") (run (text "job-1")) done_db
    ≡ ok (duplicate, done_db)
unfolding commit_result find_job is_stale receive bad_bindings finish check_build check_outcome
    check_evidence validate_run_measurement_evidence run_evidence store_result find_result
    update_job complete_row settle finalize set_outcome claim_row recover_row recovered_payload
    repeat_result text_eq
late_answer = refl

waiting_fence : 1 < waiting_row.fence
unfolding recover_row claim_row
waiting_fence = omega arith

commit_result-stale_example :
    (duplicate ≡ duplicate)
    × (done_db ≡ done_db)
    × (stored : ResultRow) × (find_result (text "job-1") done_db.results ≡ some stored)
    × (env.run_digest (run (text "job-1")) ≡ ok stored.digest)
commit_result-stale_example =
    commit_result-stale builds env one (text "token") (run (text "job-1")) waiting_row
      waiting-IsKeyed waiting_found waiting_fence reached late_answer

abbrev done_row : JobRow
done_row = complete_row second_row

done_found : find_job (text "job-1") done_db.jobs ≡ some done_row
unfolding commit_result find_job is_stale receive bad_bindings finish check_build check_outcome
    check_evidence validate_run_measurement_evidence run_evidence store_result find_result
    update_job complete_row settle finalize set_outcome claim_row recover_row recovered_payload
    text_eq
done_found = refl

done-IsKeyed : IsKeyed done_db.jobs
done-IsKeyed = Reach-IsKeyed reached waiting-IsKeyed

is_done : is_complete done_row.status ≡ true
unfolding complete_row
is_done = refl

-- An editor who cancels the version leaves the job as it is.
Reach-complete_example :
    (j' : JobRow) × (find_job
        (text "job-1")
        (cancel_jobs (text "v") (recover_runner_leases 99 done_db)).jobs
      ≡ some j')
    × (is_complete j'.status ≡ true)
    × (j'.fence ≡ done_row.fence)
Reach-complete_example =
    Reach-complete done_db (cancel_jobs (text "v") (recover_runner_leases 99 done_db))
      (text "job-1") done_row (further (further here (recovers 99)) (cancels (text "v")))
      done-IsKeyed done_found is_done
