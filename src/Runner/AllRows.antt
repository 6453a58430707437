-- ===== src/Runner/AllRows.antt =====
-- Updates of every row: recovered leases and cancelled versions.
use science_ladder.Base.{
  ℕ, ◌≡◌, inl, inr, refl, sym, ap, ◌∙◌, true, false, some, List, [], ◌∷◌, if◌then◌else◌, Bool-cases,
  some_inj, Bytes, text, text_eq, if_true, if_false, subst,
}
use science_ladder.Runner.{JobRow, ResultRow, find_job}
use science_ladder.Runner.Cancel.{cancel_row, cancel_rows, is_cancelled_by}
use science_ladder.Runner.Jobs.{is_expired, recover_row, recovered_payload, recover_rows}
use science_ladder.Runner.Rows.{IsKeyed}

abbrev pub maybe_recovered : ℕ → List ResultRow → JobRow → JobRow
maybe_recovered now results j = if is_expired now results j then recover_row j else j

maybe_recovered-id :
    (now : ℕ) (results : List ResultRow) (j : JobRow) → (maybe_recovered now results j).id ≡ j.id
unfolding recover_row
maybe_recovered-id now results j = elim (Bool-cases (is_expired now results j)) [
  | inl e ↦ rw e refl
  | inr e ↦ rw e refl
]

maybe_recovered-payload :
    (now : ℕ) (results : List ResultRow) (j : JobRow)
    → (maybe_recovered now results j).payload.id ≡ j.payload.id
unfolding recover_row recovered_payload
maybe_recovered-payload now results j = elim (Bool-cases (is_expired now results j)) [
  | inl e ↦ elim (Bool-cases (text_eq j.payload.verification_policy (text "platform"))) [
    | inl p ↦ rw (e, p) refl
    | inr p ↦ rw (e, p) refl
  ]
  | inr e ↦ rw e refl
]

abbrev pub maybe_cancelled : Bytes → JobRow → JobRow
maybe_cancelled version j = if is_cancelled_by version j then cancel_row j else j

maybe_cancelled-same :
    (version : Bytes) (j : JobRow)
    → ((maybe_cancelled version j).id ≡ j.id)
      × ((maybe_cancelled version j).payload.id ≡ j.payload.id)
unfolding cancel_row
maybe_cancelled-same version j = elim (Bool-cases (is_cancelled_by version j)) [
  | inl e ↦ rw e (refl, refl)
  | inr e ↦ rw e (refl, refl)
]

-- An update of every row.
abbrev map_rows : (JobRow → JobRow) → List JobRow → List JobRow
map_rows change [] = []
map_rows change (j ∷ js) = change j ∷ map_rows change js

recover_rows-map :
    (now : ℕ) (results : List ResultRow) (jobs : List JobRow)
    → map_rows (maybe_recovered now results) jobs ≡ recover_rows now results jobs
unfolding recover_rows
recover_rows-map now results [] = refl
recover_rows-map now results (j ∷ js) =
    ap (λ (l : List JobRow). maybe_recovered now results j ∷ l) (recover_rows-map now results js)

cancel_rows-map :
    (version : Bytes) (jobs : List JobRow)
    → map_rows (maybe_cancelled version) jobs ≡ cancel_rows version jobs
unfolding cancel_rows
cancel_rows-map version [] = refl
cancel_rows-map version (j ∷ js) =
    ap (λ (l : List JobRow). maybe_cancelled version j ∷ l) (cancel_rows-map version js)

module _ (change : JobRow → JobRow) (keeps : (j : JobRow) → (change j).id ≡ j.id) where
  find_job-map_rows :
      (id : Bytes) (jobs : List JobRow) {j : JobRow}
      → find_job id jobs ≡ some j
      → find_job id (map_rows change jobs) ≡ some (change j)
  unfolding find_job
  find_job-map_rows id [] h = cc
  find_job-map_rows id (x ∷ jobs) {j} h = elim (Bool-cases (text_eq x.id id)) [
    | inl e ↦
        let same : x ≡ j = some_inj (if_true _ _ _ e h) in
        let named : text_eq (change x).id id ≡ true =
          ap (λ (s : Bytes). text_eq s id) (keeps x) ∙ e in
        rw named (ap (λ (y : JobRow). some (change y)) same)
    | inr e ↦
        let other : text_eq (change x).id id ≡ false =
          ap (λ (s : Bytes). text_eq s id) (keeps x) ∙ e in
        rw other (find_job-map_rows id jobs (if_false _ _ _ e h))
  ]

  map_rows-IsKeyed :
      ((j : JobRow) → (change j).payload.id ≡ j.payload.id)
      → (jobs : List JobRow) → IsKeyed jobs
      → IsKeyed (map_rows change jobs)
  map_rows-IsKeyed keyed [] k = tt
  map_rows-IsKeyed keyed (x ∷ jobs) k =
      (keyed x ∙ (k.0 ∙ sym (keeps x)), map_rows-IsKeyed keyed jobs k.1)

pub find_job-recover_rows :
    (now : ℕ) (results : List ResultRow) (id : Bytes) (jobs : List JobRow) {j : JobRow}
    → find_job id jobs ≡ some j
    → find_job id (recover_rows now results jobs) ≡ some (maybe_recovered now results j)
find_job-recover_rows now results id jobs h =
    ap (find_job id) (sym (recover_rows-map now results jobs))
    ∙ find_job-map_rows (maybe_recovered now results) (maybe_recovered-id now results) id jobs h

pub recover_rows-IsKeyed :
    (now : ℕ) (results : List ResultRow) (jobs : List JobRow)
    → IsKeyed jobs
    → IsKeyed (recover_rows now results jobs)
recover_rows-IsKeyed now results jobs k = subst IsKeyed (recover_rows-map now results jobs) (
    map_rows-IsKeyed (maybe_recovered now results) (maybe_recovered-id now results)
      (maybe_recovered-payload now results) jobs k)

pub find_job-cancel_rows :
    (version id : Bytes) (jobs : List JobRow) {j : JobRow}
    → find_job id jobs ≡ some j
    → find_job id (cancel_rows version jobs) ≡ some (maybe_cancelled version j)
find_job-cancel_rows version id jobs h =
    ap (find_job id) (sym (cancel_rows-map version jobs))
    ∙ find_job-map_rows (maybe_cancelled version) (λ j. (maybe_cancelled-same version j).0) id jobs
        h

pub cancel_rows-IsKeyed :
    (version : Bytes) (jobs : List JobRow) → IsKeyed jobs → IsKeyed (cancel_rows version jobs)
cancel_rows-IsKeyed version jobs k = subst IsKeyed (cancel_rows-map version jobs) (
    map_rows-IsKeyed (maybe_cancelled version) (λ j. (maybe_cancelled-same version j).0)
      (λ j. (maybe_cancelled-same version j).1) jobs k)
