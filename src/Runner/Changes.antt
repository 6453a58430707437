-- ===== src/Runner/Changes.antt =====
-- What a result that is taken does to the rows of jobs.
use science_ladder.Base.{
  ◌∙◌, ◌≡◌, inl, inr, sym, ap, Bool, true, false, ◌||◌, not, Option, none, some, List, arith, ◌==◌,
  Bool-cases, Bytes, text, text_eq, ok, >>=-eq-ok, if_true, if_false, ok_inj, text_eq→eq, was_true,
  passed_guard, passed_check,
}
use science_ladder.Results.{RunReceipt}
use science_ladder.Runner.{ResultRow, JobRow, Runners, Env, Host, find_job, update_job, find_result}
use science_ladder.Runner.Jobs.{insert_job, is_running, is_before}
use science_ladder.Runner.Bindings.{bad_bindings}
use science_ladder.Runner.Commit.{
  check_token, is_held_by, has_lease, is_stale, requeue_row, complete_row, receive, is_complete,
  repeat_result, commit_result,
}
use science_ladder.Runner.Builds.{Builds}
use science_ladder.Runner.Settle.{duplicate, Answer, needed}
use science_ladder.Runner.Adds.{jobs_of, finish-Adds}

-- The jobs after the transaction: those before, with one waiting again, or with one complete and
-- perhaps one more.
pub data Change (jobs : List JobRow) (id : Bytes) (j : JobRow) (jobs' : List JobRow) : Type 0 where
  kept : jobs' ≡ jobs → Change jobs id j jobs'
  requeued :
      (host : Bytes)
      → is_running j.status ≡ true
      → jobs' ≡ update_job id (requeue_row host) jobs
      → Change jobs id j jobs'
  completed :
      is_running j.status ≡ true
      → jobs' ≡ update_job j.payload.id complete_row jobs
      → Change jobs id j jobs'
  confirmed :
      (row : JobRow)
      → is_running j.status ≡ true
      → row.payload.id ≡ row.id
      → insert_job row (update_job j.payload.id complete_row jobs) ≡ ok jobs'
      → Change jobs id j jobs'

module _ (builds : Builds) (env : Env) (host : Host) (run : RunReceipt) where
  receive-Change :
      (digest : Bytes) (j : JobRow) (db : Runners) {p : Answer × Runners}
      → is_running j.status ≡ true
      → receive builds env host run digest j db ≡ ok p
      → Change db.jobs run.job_id j (jobs_of p)
  unfolding receive
  receive-Change digest j db {p} active h =
      let (bound, _, h1) = >>=-eq-ok (env.job_digest j.payload) _ h in
      let (_, h2) = passed_guard (bad_bindings run j.payload bound) _ h1 in
      elim (Bool-cases (text_eq run.outcome (text "infrastructure_fault"))) [
        | inl e ↦ requeued host.id active (sym (ap jobs_of (ok_inj (if_true _ _ _ e h2))))
        | inr e ↦
            elim (finish-Adds builds env host j.payload run digest j.version_id db
              (if_false _ _ _ e h2)) [
                | inl same ↦ completed active same
                | inr (row, keyed, put) ↦ confirmed row active keyed put
              ]
      ]

running_when :
    (env : Env) (host : Host) (run : RunReceipt) (j : JobRow)
    → is_stale env host run j ≡ false
    → (is_running j.status ≡ true) × ((j.fence == run.fencing_token) ≡ true)
unfolding is_stale
running_when env host run j h =
    ends (is_running j.status) (is_held_by host.id j.host_id) (has_lease j.lease_expires_at)
      (is_before j.lease_expires_at env.now) (j.fence == run.fencing_token) h
  where
    ends :
        (a b c d e : Bool)
        → (not a || not b || not c || d || not e) ≡ false
        → (a ≡ true) × (e ≡ true)
    ends a b c d e h = (ground (arith, h), ground (arith, h))

-- A result that is taken either repeats the stored one, or comes under the fence of the row.
pub data Taken (env : Env) (db : Runners) (run : RunReceipt) (p : Answer × Runners) : Type 0 where
  again :
      p.0 ≡ duplicate
      → p.1 ≡ db
      → (stored : ResultRow) → find_result run.job_id db.results ≡ some stored
      → env.run_digest run ≡ ok stored.digest
      → Taken env db run p
  current :
      (j : JobRow)
      → find_job run.job_id db.jobs ≡ some j
      → (j.fence == run.fencing_token) ≡ true
      → Change db.jobs run.job_id j (jobs_of p)
      → Taken env db run p

needed-some {ℓ} : {A : Type ℓ} (o : Option A) {a : A} → needed o ≡ ok a → o ≡ some a
needed-some none h = cc
needed-some (some x) h = cc

repeated-Taken :
    (env : Env) (run : RunReceipt) (digest : Bytes) (db : Runners) {p : Answer × Runners}
    → env.run_digest run ≡ ok digest
    → repeat_result run digest db ≡ ok p
    → Taken env db run p
unfolding repeat_result
repeated-Taken env run digest db {p} digested k =
    let (stored, found, k1) = >>=-eq-ok (needed (find_result run.job_id db.results)) _ k in
    let (same, k2) = passed_guard (not (text_eq stored.digest digest)) _ k1 in
    let equal = text_eq→eq stored.digest digest (was_true (text_eq stored.digest digest) same) in
    again (sym (ap (λ (q : Answer × Runners). q.0) (ok_inj k2)))
      (sym (ap (λ (q : Answer × Runners). q.1) (ok_inj k2))) stored
      (needed-some (find_result run.job_id db.results) found) (digested ∙ ap ok (sym equal))

pub commit_result-Taken :
    (builds : Builds) (env : Env) (host : Host) (token : Bytes) (run : RunReceipt) (db : Runners)
    {p : Answer × Runners}
    → commit_result builds env host token run db ≡ ok p
    → Taken env db run p
unfolding commit_result
commit_result-Taken builds env host token run db {p} h =
    let (digest, digested, h1) = >>=-eq-ok (env.run_digest run) _ h in
    let (j, found, h2) = >>=-eq-ok (needed (find_job run.job_id db.jobs)) _ h1 in
    let (_, h3) = passed_check (check_token (env.hash token) j.result_token_hash) h2 in
    elim (Bool-cases (is_complete j.status)) [
      | inl e ↦ repeated-Taken env run digest db digested (if_true _ _ _ e h3)
      | inr e ↦
          let (fresh, h4) = passed_guard (is_stale env host run j) _ (if_false _ _ _ e h3) in
          let (active, fenced) = running_when env host run j fresh in
          current j (needed-some (find_job run.job_id db.jobs) found) fenced
            (receive-Change builds env host run digest j db active h4)
    ]
