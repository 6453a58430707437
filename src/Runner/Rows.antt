-- ===== src/Runner/Rows.antt =====
-- Where the rows of jobs are found after an update.
use science_ladder.Base.{
  ◌≡◌, inl, inr, refl, sym, ap, ◌∙◌, true, false, Option, some, List, [], ◌∷◌, Bool-cases, some_inj,
  Bytes, is_some, text_eq, text_eq→eq, ok, if_true, if_false, ok_inj, passed_guard, All, subst,
}
use science_ladder.Runner.{JobRow, find_job, update_job}
use science_ladder.Runner.Jobs.{insert_job}

-- The signed job of each row is the job of that row.
abbrev pub IsKeyed : List JobRow → Type 0
IsKeyed jobs = All (λ j. j.payload.id ≡ j.id) jobs

pub find_job-id :
    (id : Bytes) (jobs : List JobRow) {j : JobRow} → find_job id jobs ≡ some j → j.id ≡ id
unfolding find_job
find_job-id id [] h = cc
find_job-id id (x ∷ jobs) h = elim (Bool-cases (text_eq x.id id)) [
  | inl e ↦ ap (λ (y : JobRow). y.id) (sym (some_inj (if_true _ _ _ e h))) ∙ text_eq→eq x.id id e
  | inr e ↦ find_job-id id jobs (if_false _ _ _ e h)
]

pub find_job-IsKeyed :
    (id : Bytes) (jobs : List JobRow) {j : JobRow}
    → IsKeyed jobs
    → find_job id jobs ≡ some j
    → j.payload.id ≡ id
unfolding find_job
find_job-IsKeyed id [] k h = cc
find_job-IsKeyed id (x ∷ jobs) k h = elim (Bool-cases (text_eq x.id id)) [
  | inl e ↦
      ap (λ (y : JobRow). y.payload.id) (sym (some_inj (if_true _ _ _ e h)))
      ∙ (k.0 ∙ text_eq→eq x.id id e)
  | inr e ↦ find_job-IsKeyed id jobs k.1 (if_false _ _ _ e h)
]

module _ (id : Bytes) (change : JobRow → JobRow) where
  -- An update changes the row with the id and no other.
  pub find_job-update_job :
      (jobs : List JobRow) {j : JobRow}
      → (change j).id ≡ j.id
      → find_job id jobs ≡ some j
      → find_job id (update_job id change jobs) ≡ some (change j)
  unfolding find_job update_job
  find_job-update_job [] keeps h = cc
  find_job-update_job (x ∷ jobs) {j} keeps h = elim (Bool-cases (text_eq x.id id)) [
    | inl e ↦
        let same : x ≡ j = some_inj (if_true _ _ _ e h) in
        let named : text_eq (change x).id id ≡ true =
          ap (λ (y : JobRow). text_eq (change y).id id) same
          ∙ (ap (λ (s : Bytes). text_eq s id) keeps
              ∙ (ap (λ (y : JobRow). text_eq y.id id) (sym same) ∙ e)) in
        rw (e, named) (ap (λ (y : JobRow). some (change y)) same)
    | inr e ↦ rw (e, e) (find_job-update_job jobs keeps (if_false _ _ _ e h))
  ]

  pub find_job-update_job_other :
      (other : Bytes) (jobs : List JobRow)
      → ((j : JobRow) → (change j).id ≡ j.id)
      → text_eq id other ≡ false
      → find_job other (update_job id change jobs) ≡ find_job other jobs
  unfolding find_job update_job
  find_job-update_job_other other [] keeps h = refl
  find_job-update_job_other other (x ∷ jobs) keeps h = elim (Bool-cases (text_eq x.id id)) [
    | inl e ↦
        let apart : text_eq x.id other ≡ false =
          ap (λ (s : Bytes). text_eq s other) (text_eq→eq x.id id e) ∙ h in
        rw (e, apart, ap (λ (s : Bytes). text_eq s other) (keeps x) ∙ apart) refl
    | inr e ↦ rw (e, find_job-update_job_other other jobs keeps h) refl
  ]

  pub update_job-IsKeyed :
      (jobs : List JobRow)
      → ((j : JobRow) → (change j).id ≡ j.id)
      → ((j : JobRow) → j.id ≡ id → j.payload.id ≡ j.id → (change j).payload.id ≡ id)
      → IsKeyed jobs
      → IsKeyed (update_job id change jobs)
  unfolding update_job
  update_job-IsKeyed [] keeps keyed k = tt
  update_job-IsKeyed (x ∷ jobs) keeps keyed k = elim (Bool-cases (text_eq x.id id)) [
    | inl e ↦
        let named = text_eq→eq x.id id e in rw e (keyed x named k.0 ∙ sym (keeps x ∙ named), k.1)
    | inr e ↦ rw e (k.0, update_job-IsKeyed jobs keeps keyed k.1)
  ]

pub insert_job-find_job :
    (row : JobRow) (id : Bytes) (jobs jobs' : List JobRow) {j : JobRow}
    → insert_job row jobs ≡ ok jobs'
    → find_job id jobs ≡ some j
    → find_job id jobs' ≡ some j
unfolding insert_job find_job
insert_job-find_job row id jobs jobs' {j} h found =
    let (free, put) = passed_guard (is_some (find_job row.id jobs)) _ h in
    let same : row ∷ jobs ≡ jobs' = ok_inj put in
    subst (λ (l : List JobRow). find_job id l ≡ some j) same
      (elim (Bool-cases (text_eq row.id id)) [
        | inl e ↦ absurd (clash (text_eq→eq row.id id e) free)
        | inr e ↦ rw e found
      ])
  where
    clash : row.id ≡ id → is_some (find_job row.id jobs) ≡ false → ⊥
    clash e free = absurd (
        cc (
          sym free
          ∙ ap (λ (s : Bytes). is_some (find_job s jobs)) e
          ∙ ap (λ (o : Option JobRow). is_some o) found))

pub insert_job-IsKeyed :
    (row : JobRow) (jobs jobs' : List JobRow)
    → insert_job row jobs ≡ ok jobs'
    → row.payload.id ≡ row.id
    → IsKeyed jobs
    → IsKeyed jobs'
unfolding insert_job
insert_job-IsKeyed row jobs jobs' h keyed k =
    let (_, put) = passed_guard (is_some (find_job row.id jobs)) _ h in
    subst (λ (l : List JobRow). All (λ j. j.payload.id ≡ j.id) l) (ok_inj put) (keyed, k)
