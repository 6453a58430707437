-- ===== src/Tests/Confirmed.antt =====
-- A confirmation by another group.
use science_ladder.Base.{◌≡◌, ◌≢◌, refl, true, none, some, [], ◌∷◌, text, text_eq, ok}
use science_ladder.Base.Int.{scale, ◌-ℤ◌, ◌+ℤ◌}
use science_ladder.Ticks.{set_string, ticks_match, natural_match, all_digits, value, unsigned}
use science_ladder.Metric.{is_maximize}
use science_ladder.Compare.{confirmed_score, better}
use science_ladder.Results.{RunReceipt}
use science_ladder.Runner.{RunnerJob, Runners, complete, is_independent, find_result}
use science_ladder.Runner.Settle.{find_primary, confirm_outcome, finalize, set_outcome, confirm}
use science_ladder.Runner.{SubmissionRow}
use science_ladder.Runner.Confirms.{FirstResult, IsAgreed, find_submission, confirm-is_independent}
use science_ladder.Tests.Locked.{run}
use science_ladder.Tests.Claimed.{job, row, db, two, env}

-- A first result that is valid, and the confirmation of another host.
abbrev first_db : Runners
first_db = record db {
  jobs = record row { status = complete } ∷ [];
  results =
      record { job_id = text "job-1"; digest = text "run-of-job-1"; run = run (text "job-1") } ∷ [];
}

abbrev confirmation : RunnerJob
confirmation = record job { id = text "job-2"; purpose = text "confirmation" }

abbrev settled : Runners
settled = finalize confirmation (text "v") (text "valid") (text "14") first_db

confirmed : confirm env two confirmation (run (text "job-2")) (text "v") first_db ≡ ok settled
unfolding confirm find_primary find_result confirm_outcome confirmed_score better set_string
    is_maximize finalize set_outcome ◌-ℤ◌ ◌+ℤ◌ scale ticks_match natural_match all_digits value
    unsigned text_eq
confirmed = refl

submission_found :
    find_submission (text "sub") first_db.submissions
    ≡ some (record { id = text "sub"; status = []; outcome = []; score_ticks = none })
unfolding text_eq
submission_found = refl

strict : is_independent confirmation ≡ true
unfolding text_eq
strict = refl

confirm-is_independent_example :
    (primary : RunReceipt) × FirstResult (text "sub") first_db.results first_db.jobs primary
    × (primary.host_group ≢ text "group-2")
    × (primary.job_id ≢ text "job-2")
    × (s' : SubmissionRow) × (find_submission (text "sub") settled.submissions ≡ some s')
    × IsAgreed s'.outcome primary (run (text "job-2"))
confirm-is_independent_example =
    confirm-is_independent env two confirmation (run (text "job-2")) (text "v") first_db settled
      confirmed strict submission_found
