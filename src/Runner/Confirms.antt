-- ===== src/Runner/Confirms.antt =====
-- Confirmations by another group.
use science_ladder.Base.{
  ◌≡◌, ◌≢◌, refl, sym, ap, ◌∙◌, Bool, true, false, ◌&&◌, ◌||◌, not, Option, none, some, arith, ltb,
  or_none, Bytes, text_eq, text_eq_refl, ok, >>=-eq-ok, ok_inj, passed_guard,
}
use science_ladder.Results.{RunReceipt}
use science_ladder.Runner.{RunnerJob, JobRow, Runners, Env, Host, is_independent}
use science_ladder.Runner.Settle.{needed, confirm_outcome, confirm, find_primary}
use science_ladder.Base.{
  ◌⊎◌, inl, inr, List, [], ◌∷◌, In, first, later, Bool-cases, Option-cases, some_inj, if_true,
  if_false, subst, text, text_eq→eq, and_parts, if◌then◌else◌,
}
use science_ladder.Runner.{ResultRow, SubmissionRow, find_result}
use science_ladder.Runner.Settle.{
  result_run, disagreement, is_timed, set_outcome, finalize, ticks_of,
}

needed-is {ℓ} : {A : Type ℓ} (o : Option A) {a : A} → needed o ≡ ok a → o ≡ some a
needed-is none h = cc
needed-is (some x) h = cc

apart : (s t : Bytes) → text_eq s t ≡ false → s ≢ t
apart s t h same = absurd (cc (sym h ∙ ap (λ (v : Bytes). text_eq s v) (sym same) ∙ text_eq_refl s))

find_result-In :
    (id : Bytes) (results : List ResultRow) {r : ResultRow}
    → find_result id results ≡ some r
    → In r results × (r.job_id ≡ id)
unfolding find_result
find_result-In id [] h = cc
find_result-In id (x ∷ rs) {r} h = elim (Bool-cases (text_eq x.job_id id)) [
  | inl e ↦
      let same : x ≡ r = some_inj (if_true _ _ _ e h) in
      (
        subst (λ (y : ResultRow). In y (x ∷ rs)) same first,
        subst (λ (y : ResultRow). y.job_id ≡ id) same (text_eq→eq x.job_id id e),
      )
  | inr e ↦ let (among, named) = find_result-In id rs (if_false _ _ _ e h) in (later among, named)
]

-- A stored result of a job that was queued for the submission itself.
pub record FirstResult (submission : Bytes) (results : List ResultRow) (jobs : List JobRow)
    (run : RunReceipt) : Type 0 where
  pub job : JobRow
  pub among : In job jobs
  pub of_submission : job.submission_id ≡ submission
  pub is_first : job.purpose ≡ text "submission"
  pub result : ResultRow
  pub stored : In result results
  pub of_job : result.job_id ≡ job.id
  pub is_run : result.run ≡ run

FirstResult-later :
    (submission : Bytes) (results : List ResultRow) (j : JobRow) (jobs : List JobRow)
    (run : RunReceipt)
    → FirstResult submission results jobs run
    → FirstResult submission results (j ∷ jobs) run
FirstResult-later submission results j jobs run f = record {
  job = f.job;
  among = later f.among;
  of_submission = f.of_submission;
  is_first = f.is_first;
  result = f.result;
  stored = f.stored;
  of_job = f.of_job;
  is_run = f.is_run;
}

find_primary-FirstResult :
    (submission : Bytes) (results : List ResultRow) (jobs : List JobRow) {run : RunReceipt}
    → find_primary submission results jobs ≡ some run
    → FirstResult submission results jobs run
unfolding find_primary
find_primary-FirstResult submission results [] h = cc
find_primary-FirstResult submission results (j ∷ js) {run} h =
    let more = λ (k : find_primary submission results js ≡ some run).
      FirstResult-later submission results j js run
        (find_primary-FirstResult submission results js k) in
    elim (Bool-cases
      (text_eq j.submission_id submission && text_eq j.purpose (text "submission"))) [
        | inr e ↦ more (if_false _ _ _ e h)
        | inl e ↦
            let (owned, kind) = and_parts _ _ e in
            let chosen = if_true _ _ _ e h in
            elim (Option-cases (find_result j.id results)) [
              | inl n ↦
                  more
                    (ap (λ o. result_run o (find_primary submission results js)) (sym n) ∙ chosen)
              | inr (r, found) ↦
                  let (stored, of_job) = find_result-In j.id results found in
                  record {
                    job = j;
                    among = first;
                    of_submission = text_eq→eq j.submission_id submission owned;
                    is_first = text_eq→eq j.purpose (text "submission") kind;
                    result = r;
                    stored = stored;
                    of_job = of_job;
                    is_run = some_inj (
                        ap (λ o. result_run o (find_primary submission results js)) (sym found)
                        ∙ chosen);
                  }
            ]
      ]

-- An outcome is `valid` only where both runs have it.
pub IsAgreed : Bytes → RunReceipt → RunReceipt → Type 0
IsAgreed outcome primary run =
    (outcome ≢ text "valid") ⊎ ((primary.outcome ≡ text "valid") × (run.outcome ≡ text "valid"))

disagreement-ne : (job : RunnerJob) → disagreement job ≢ text "valid"
disagreement-ne job h = elim (Bool-cases (is_timed job)) [
  | inl e ↦ absurd (word (if_true _ _ _ e h))
  | inr e ↦ absurd (word' (if_false _ _ _ e h))
]
  where
    word : text "measurement_inconclusive" ≡ text "valid" → ⊥
    word e = cc

    word' : text "nondeterministic" ≡ text "valid" → ⊥
    word' e = cc

agreed :
    (job : RunnerJob) (primary run : RunReceipt) (settled p : Bytes × Bytes)
    → (if not (text_eq run.outcome primary.outcome)
        then (disagreement job, [])
        else if text_eq run.outcome (text "valid")
        then settled
        else (run.outcome, run.score_ticks))
      ≡ p
    → IsAgreed p.0 primary run
unfolding IsAgreed
agreed job primary run settled p h = elim (Bool-cases (text_eq run.outcome primary.outcome)) [
  | inr n ↦
      let is_p = if_true _ _ _ (ap not n) h in
      inl (λ v. disagreement-ne job (ap (λ (q : Bytes × Bytes). q.0) is_p ∙ v))
  | inl e ↦
      let same = text_eq→eq run.outcome primary.outcome e in
      let rest = if_false _ _ _ (ap not e) h in
      elim (Bool-cases (text_eq run.outcome (text "valid"))) [
        | inl v ↦
            let valid = text_eq→eq run.outcome (text "valid") v in inr (sym same ∙ valid, valid)
        | inr v ↦
            let is_p = if_false _ _ _ v rest in
            let differs = apart run.outcome (text "valid") v in
            inl (λ w. differs (ap (λ (q : Bytes × Bytes). q.0) is_p ∙ w))
      ]
]

-- The row of a submission.
abbrev pub find_submission : Bytes → List SubmissionRow → Option SubmissionRow
find_submission id [] = none
find_submission id (s ∷ ss) =
    let rest = find_submission id ss in if text_eq s.id id then some s else rest

outcome_set :
    (id status outcome : Bytes) (score : Option Bytes) (ss : List SubmissionRow) {s : SubmissionRow}
    → find_submission id ss ≡ some s
    → (s' : SubmissionRow) × (find_submission id (set_outcome id status outcome score ss) ≡ some s')
      × (s'.outcome ≡ outcome)
unfolding set_outcome
outcome_set id status outcome score [] h = cc
outcome_set id status outcome score (x ∷ ss) h = elim (Bool-cases (text_eq x.id id)) [
  | inl e ↦
      (record x { status = status; outcome = outcome; score_ticks = score }, rw (e, e) refl, refl)
  | inr e ↦
      let (s', found, is_outcome) = outcome_set id status outcome score ss (if_false _ _ _ e h) in
      (s', rw (e, e) found, is_outcome)
]

confirm_outcome-parts :
    (env : Env) (host : Host) (job : RunnerJob) (primary run : RunReceipt) {p : Bytes × Bytes}
    → confirm_outcome env host job primary run ≡ ok p
    → ((is_independent job && text_eq primary.host_group host.group) ≡ false)
      × (text_eq primary.job_id run.job_id ≡ false)
      × IsAgreed p.0 primary run
unfolding confirm_outcome
confirm_outcome-parts env host job primary run {p} h =
    let (group, h1) =
      passed_guard (is_independent job && text_eq primary.host_group host.group) _ h in
    let (fresh, h2) =
      passed_guard
        (text_eq primary.job_id run.job_id
          || text_eq primary.id run.id
          || ltb run.created_at primary.created_at)
        _ h1 in
    let (new_run, _) =
      or_none (text_eq primary.job_id run.job_id || text_eq primary.id run.id)
        (ltb run.created_at primary.created_at) fresh in
    (
      group,
      (or_none (text_eq primary.job_id run.job_id) (text_eq primary.id run.id) new_run).0,
      agreed job primary run _ p (ok_inj h2),
    )

-- Where a confirmation is taken under the policy `independent` for a submission with a row, a result
-- is stored of a job of that submission whose purpose is `submission`; it came from another host
-- group and belongs to another job; and the row's new outcome is `valid` only where both that
-- result and the confirmation are.
pub confirm-is_independent :
    (env : Env) (host : Host) (job : RunnerJob) (run : RunReceipt) (version : Bytes)
    (db db' : Runners) {s : SubmissionRow}
    → confirm env host job run version db ≡ ok db'
    → is_independent job ≡ true
    → find_submission job.submission_id db.submissions ≡ some s
    → (primary : RunReceipt) × FirstResult job.submission_id db.results db.jobs primary
      × (primary.host_group ≢ host.group)
      × (primary.job_id ≢ run.job_id)
      × (s' : SubmissionRow) × (find_submission job.submission_id db'.submissions ≡ some s')
      × IsAgreed s'.outcome primary run
unfolding confirm finalize
confirm-is_independent env host job run version db db' h strict row =
    let (primary, found, h1) =
      >>=-eq-ok (needed (find_primary job.submission_id db.results db.jobs)) _ h in
    let ((outcome, score), settled, h2) =
      >>=-eq-ok (confirm_outcome env host job primary run) _ h1 in
    let (group, fresh, both) = confirm_outcome-parts env host job primary run settled in
    let (s', now, is_outcome) =
      outcome_set job.submission_id (text "validated") outcome (ticks_of outcome score)
        db.submissions row in
    let is_first = needed-is (find_primary job.submission_id db.results db.jobs) found in
    (
      primary,
      find_primary-FirstResult job.submission_id db.results db.jobs is_first,
      apart primary.host_group host.group (if_strict _ _ strict group),
      apart primary.job_id run.job_id fresh,
      s',
      ap (λ (d : Runners). find_submission job.submission_id d.submissions) (sym (ok_inj h2)) ∙ now,
      subst (λ (o : Bytes). IsAgreed o primary run) (sym is_outcome) both,
    )
  where
    if_strict : (a b : Bool) → a ≡ true → (a && b) ≡ false → b ≡ false
    if_strict a b e g = ground (arith, e, g)
