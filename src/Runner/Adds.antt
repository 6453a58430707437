-- ===== src/Runner/Adds.antt =====
-- What the rest of the transaction adds to the jobs once a result is stored.
use science_ladder.Base.{
  [], ◌≡◌, ◌⊎◌, inl, inr, refl, sym, ap, ◌∙◌, Bool, true, false, ◌&&◌, ◌||◌, none, some, List,
  if◌then◌else◌, Bool-cases, Bytes, text, is_some, text_eq, Result, ok, err, ◌>>=◌, >>=-eq-ok,
  if_true, if_false, ok_inj, passed_guard, passed_check, subst,
}
use science_ladder.Results.{RunReceipt}
use science_ladder.Runner.{
  is_build, RunnerJob, JobRow, Runners, Env, Host, is_independent, update_job, find_result,
}
use science_ladder.Runner.Jobs.{new_row, insert_job}
use science_ladder.Runner.Bindings.{check_outcome}
use science_ladder.Runner.Builds.{Builds, check_build, next_preflight, asks_again, commit_build}
use science_ladder.Runner.Commit.{complete_row, has_digest, store_result, finish}
use science_ladder.Runner.Settle.{
  Answer, needed, confirm_outcome, confirmation_of, ask_confirmation, find_primary, finalize,
  report_incident, confirm, settle, accepted,
}

abbrev pub jobs_of : Answer × Runners → List JobRow
jobs_of p = p.1.jobs

-- The rest of the transaction leaves the jobs, or adds one.
abbrev pub Adds : List JobRow → List JobRow → Type 0
Adds jobs jobs' =
    (jobs' ≡ jobs) ⊎ ((row : JobRow) × (row.payload.id ≡ row.id) × (insert_job row jobs ≡ ok jobs'))

asked_Adds :
    (env : Env) (host : Host) (job : RunnerJob) (version : Bytes) (db db' : Runners)
    → ask_confirmation env host job version db ≡ ok db'
    → Adds db.jobs db'.jobs
unfolding ask_confirmation
asked_Adds env host job version db db' h =
    let row =
      new_row (confirmation_of env host job) (text "confirmation") version job.submission_id
        (if is_independent job then some host.group else none) in
    let (jobs, put, h1) = >>=-eq-ok (insert_job row db.jobs) _ h in
    inr (row, refl, put ∙ ap (λ (d : Runners). ok d.jobs) (ok_inj h1))

confirmed_Adds :
    (env : Env) (host : Host) (job : RunnerJob) (run : RunReceipt) (version : Bytes)
    (db db' : Runners)
    → confirm env host job run version db ≡ ok db'
    → Adds db.jobs db'.jobs
unfolding confirm finalize
confirmed_Adds env host job run version db db' h =
    let (primary, _, h1) =
      >>=-eq-ok (needed (find_primary job.submission_id db.results db.jobs)) _ h in
    let (p, _, h2) = >>=-eq-ok (confirm_outcome env host job primary run) _ h1 in
    inl (sym (ap (λ (d : Runners). d.jobs) (ok_inj h2)))

then_accepted :
    (final : Bool) (first_part : Result Runners) {p : Answer × Runners}
    → (first_part >>= λ db'. ok (accepted final, db')) ≡ ok p
    → first_part ≡ ok p.1
then_accepted final (err e) h = cc
then_accepted final (ok d) h = ap (λ (q : Answer × Runners). ok q.1) (ok_inj h)

settle-Adds :
    (env : Env) (host : Host) (job : RunnerJob) (run : RunReceipt) (version : Bytes) (db : Runners)
    {p : Answer × Runners}
    → settle env host job run version db ≡ ok p
    → Adds db.jobs (jobs_of p)
unfolding settle finalize report_incident
settle-Adds env host job run version db {p} h =
    elim (Bool-cases (text_eq run.outcome (text "challenge_fault"))) [
      | inl e ↦ inl (sym (ap jobs_of (ok_inj (if_true _ _ _ e h))))
      | inr e ↦ after (if_false _ _ _ e h)
    ]
  where
    last :
        (if text_eq job.purpose (text "confirmation")
            then (confirm env host job run version db >>= λ d. ok (accepted true, d))
            else ok (accepted true, finalize job version run.outcome run.score_ticks db))
          ≡ ok p
        → Adds db.jobs (jobs_of p)
    last k = elim (Bool-cases (text_eq job.purpose (text "confirmation"))) [
      | inl e ↦
          confirmed_Adds env host job run version db p.1
            (then_accepted true (confirm env host job run version db) (if_true _ _ _ e k))
      | inr e ↦ inl (sym (ap jobs_of (ok_inj (if_false _ _ _ e k))))
    ]

    after :
        (if text_eq run.outcome (text "valid") && text_eq job.purpose (text "submission")
            then (ask_confirmation env host job version db >>= λ d. ok (accepted false, d))
            else if text_eq job.purpose (text "confirmation")
            then (confirm env host job run version db >>= λ d. ok (accepted true, d))
            else ok (accepted true, finalize job version run.outcome run.score_ticks db))
          ≡ ok p
        → Adds db.jobs (jobs_of p)
    after k =
        elim (Bool-cases
          (text_eq run.outcome (text "valid") && text_eq job.purpose (text "submission"))) [
            | inl e ↦
                asked_Adds env host job version db p.1 (
                  then_accepted false (ask_confirmation env host job version db)
                    (if_true _ _ _ e k))
            | inr e ↦ last (if_false _ _ _ e k)
          ]

stored_jobs :
    (job : RunnerJob) (run : RunReceipt) (digest : Bytes) (db db' : Runners)
    → store_result job run digest db ≡ ok db'
    → update_job job.id complete_row db.jobs ≡ db'.jobs
unfolding store_result
stored_jobs job run digest db db' h =
    let (_, put) =
      passed_guard (is_some (find_result job.id db.results) || has_digest digest db.results) _ h in
    ap (λ (d : Runners). d.jobs) (ok_inj put)

built_Adds :
    (builds : Builds) (env : Env) (job : RunnerJob) (run : RunReceipt) (digest version : Bytes)
    (db db' : Runners)
    → commit_build builds env job run digest version db ≡ ok db'
    → Adds db.jobs db'.jobs
unfolding commit_build
built_Adds builds env job run digest version db db' h =
    let ((is_first, receipts, queue), _, h1) =
      >>=-eq-ok (builds.write job run digest version db) _ h in
    elim (Bool-cases (asks_again is_first job run)) [
      | inl e ↦
          let row =
            new_row (next_preflight env job run) (text "preflight") version []
              (some run.host_group) in
          let (jobs, put, h2) = >>=-eq-ok (insert_job row db.jobs) _ (if_true _ _ _ e h1) in
          inr (row, refl, put ∙ ap (λ (d : Runners). ok d.jobs) (ok_inj h2))
      | inr e ↦ inl (sym (ap (λ (d : Runners). d.jobs) (ok_inj (if_false _ _ _ e h1))))
    ]

pub finish-Adds :
    (builds : Builds) (env : Env) (host : Host) (job : RunnerJob) (run : RunReceipt)
    (digest version : Bytes) (db : Runners) {p : Answer × Runners}
    → finish builds env host job run digest version db ≡ ok p
    → Adds (update_job job.id complete_row db.jobs) (jobs_of p)
unfolding finish
finish-Adds builds env host job run digest version db {p} h =
    let (_, h1) = passed_check (check_build builds host job run) h in
    let (_, h2) = passed_check (check_outcome env run job) h1 in
    let (stored, put, h3) = >>=-eq-ok (store_result job run digest db) _ h2 in
    subst (λ (l : List JobRow). Adds l (jobs_of p)) (sym (stored_jobs job run digest db stored put))
      (elim (Bool-cases (is_build job.purpose)) [
        | inl e ↦ built_Adds builds env job run digest version stored p.1 (
            then_accepted true (commit_build builds env job run digest version stored)
              (if_true _ _ _ e h3))
        | inr e ↦ settle-Adds env host job run version stored (if_false _ _ _ e h3)
      ])
