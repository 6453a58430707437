-- ===== src/Runner/RowMoves.antt =====
-- How a change of a row moves its job.
use science_ladder.Base.{
  ℕ, ◌+◌, ◌≡◌, inl, inr, refl, sym, Bool, true, false, ◌&&◌, none, List, leb, if◌then◌else◌,
  Bool-cases, and_parts, Bytes, text_eq, is_none, subst,
}
use science_ladder.Runner.{
  find_result, RunnerJob, Status, queued, running, complete, attention_required, cancelled, JobRow,
  ResultRow,
}
use science_ladder.Runner.Jobs.{is_before, is_running, is_expired, recover_row}
use science_ladder.Runner.Cancel.{cancel_row, is_open_status, is_cancelled_by}
use science_ladder.Runner.Claim.{is_queued, claim_row}
use science_ladder.Runner.Commit.{requeue_row, complete_row}
use science_ladder.Runner.AllRows.{maybe_recovered, maybe_cancelled}
use science_ladder.Runner.Phases.{
  Phase, waiting, held, phase, phase_of, Move, stays, claims, loses, gives_up, finishes, off,
  stops_waiting, stops_held, stops_stuck,
}

held_of : (j : JobRow) → is_running j.status ≡ true → phase_of j ≡ held j.fence j.host_id
held_of j h = of_status j.status h
  where
    of_status :
        (s : Status) → is_running s ≡ true → phase s j.fence j.host_id ≡ held j.fence j.host_id
    of_status running h = refl
    of_status queued h = cc
    of_status complete h = cc
    of_status attention_required h = cc
    of_status cancelled h = cc

waiting_of : (j : JobRow) → is_queued j.status ≡ true → phase_of j ≡ waiting j.fence
waiting_of j h = of_status j.status h
  where
    of_status : (s : Status) → is_queued s ≡ true → phase s j.fence j.host_id ≡ waiting j.fence
    of_status queued h = refl
    of_status running h = cc
    of_status complete h = cc
    of_status attention_required h = cc
    of_status cancelled h = cc

expired_running :
    (now : ℕ) (results : List ResultRow) (j : JobRow)
    → is_expired now results j ≡ true
    → is_running j.status ≡ true
unfolding is_expired
expired_running now results j h =
    let both =
      (and_parts (is_running j.status && is_before j.lease_expires_at now)
        (is_none (find_result j.id results)) h).0 in
    (and_parts (is_running j.status) (is_before j.lease_expires_at now) both).0

recover_row-Move :
    (j : JobRow) → is_running j.status ≡ true → Move (phase_of j) (phase_of (recover_row j))
unfolding recover_row
recover_row-Move j h =
    subst (λ (p : Phase). Move p (phase_of (recover_row j))) (sym (held_of j h))
      (lost (leb 8 j.attempts))
  where
    lost :
        (b : Bool)
        → Move
            (held j.fence j.host_id)
            (phase (if b then attention_required else queued) (j.fence + 1) none)
    lost true = gives_up
    lost false = loses

pub recovered-Move :
    (now : ℕ) (results : List ResultRow) (j : JobRow)
    → Move (phase_of j) (phase_of (maybe_recovered now results j))
recovered-Move now results j = elim (Bool-cases (is_expired now results j)) [
  | inl e ↦
      subst (λ (b : Bool). Move (phase_of j) (phase_of (if b then recover_row j else j))) (sym e)
        (recover_row-Move j (expired_running now results j e))
  | inr e ↦
      subst (λ (b : Bool). Move (phase_of j) (phase_of (if b then recover_row j else j))) (sym e)
        stays
]

cancel_row-Move :
    (j : JobRow) → is_open_status j.status ≡ true → Move (phase_of j) (phase_of (cancel_row j))
unfolding cancel_row
cancel_row-Move j h = of_status j.status h
  where
    of_status :
        (s : Status)
        → is_open_status s ≡ true
        → Move (phase s j.fence j.host_id) (off (j.fence + 1))
    of_status queued h = stops_waiting
    of_status running h = stops_held
    of_status attention_required h = stops_stuck
    of_status complete h = cc
    of_status cancelled h = cc

pub cancelled-Move :
    (version : Bytes) (j : JobRow) → Move (phase_of j) (phase_of (maybe_cancelled version j))
cancelled-Move version j = elim (Bool-cases (is_cancelled_by version j)) [
  | inl e ↦
      let active = (and_parts (text_eq j.version_id version) (is_open_status j.status) e).1 in
      subst (λ (b : Bool). Move (phase_of j) (phase_of (if b then cancel_row j else j))) (sym e)
        (cancel_row-Move j active)
  | inr e ↦
      subst (λ (b : Bool). Move (phase_of j) (phase_of (if b then cancel_row j else j))) (sym e)
        stays
]

pub requeue_row-Move :
    (host : Bytes) (j : JobRow)
    → is_running j.status ≡ true
    → Move (phase_of j) (phase_of (requeue_row host j))
unfolding requeue_row
requeue_row-Move host j h =
    subst (λ (p : Phase). Move p (phase_of (requeue_row host j))) (sym (held_of j h)) loses

pub complete_row-Move :
    (j : JobRow) → is_running j.status ≡ true → Move (phase_of j) (phase_of (complete_row j))
unfolding complete_row
complete_row-Move j h =
    subst (λ (p : Phase). Move p (phase_of (complete_row j))) (sym (held_of j h)) finishes

pub claim_row-Move :
    (host : Bytes) (job : RunnerJob) (token : Bytes) (expiry : ℕ) (j : JobRow)
    → is_queued j.status ≡ true
    → Move (phase_of j) (phase_of (claim_row host job token expiry j))
unfolding claim_row
claim_row-Move host job token expiry j h =
    subst (λ (p : Phase). Move p (phase_of (claim_row host job token expiry j)))
      (sym (waiting_of j h)) claims

pub requeue_row-id : (host : Bytes) (j : JobRow) → (requeue_row host j).id ≡ j.id
unfolding requeue_row
requeue_row-id host j = refl

pub complete_row-id : (j : JobRow) → (complete_row j).id ≡ j.id
unfolding complete_row
complete_row-id j = refl

pub claim_row-id :
    (host : Bytes) (job : RunnerJob) (token : Bytes) (expiry : ℕ) (j : JobRow)
    → (claim_row host job token expiry j).id ≡ j.id
unfolding claim_row
claim_row-id host job token expiry j = refl
