-- ===== src/Adjudication/Achieved.antt =====
-- A milestone is awarded for measurements, not for the score alone.
use science_ladder.Base.{
  ◌+◌, ◌≡◌, ◌⊎◌, inl, inr, refl, ap, ◌∙◌, Bool, true, false, Option, none, some, List, [], ◌∷◌,
  Bool-cases, In, first, later, Bytes, is_empty, is_some, text_eq, text_eq→eq, ok, >>=-eq-ok,
  if_true, if_false, ok_inj,
}
use science_ladder.Evaluation.Contract.{EvaluationContract}
use science_ladder.Manifest.{Manifest, Milestone}
use science_ladder.Results.{RunReceipt}
use science_ladder.Results.Evidence.{confirmed_achievement}
use science_ladder.Results.Achieved.{ShownTwice, confirmed_achievement-Shows}
use science_ladder.Adjudication.Rows.{Submission, Db, Env}
use science_ladder.Adjudication.Judge.{Standing, find_milestone, is_eligible, measured}
use science_ladder.Adjudication.Write.{find_sequence}
use science_ladder.Adjudication.Run.{go, round}
use science_ladder.Adjudication.Claims.{holder}
use science_ladder.Adjudication.Milestones.{round-holder}

-- A locked achievement with the id is confirmed by the runs.
abbrev IsConfirmed : Env → Manifest → Bytes → List RunReceipt → List Milestone → Type 0
IsConfirmed env m mid runs ms =
    (a : Milestone) × In a ms
    × (a.id ≡ mid)
    × (confirmed_achievement env.unicode env.json m a runs ≡ ok true)

module _ (env : Env) (m : Manifest) (mid : Bytes) (runs : List RunReceipt) where
  found-IsConfirmed :
      (found eligible : Bool) (ms : List Milestone)
      → find_milestone env m mid runs found eligible ms ≡ ok true
      → IsConfirmed env m mid runs ms ⊎ ((found ≡ true) × (eligible ≡ true))
  unfolding find_milestone
  found-IsConfirmed true eligible [] h = inr (refl, ok_inj h)
  found-IsConfirmed false eligible [] h = cc
  found-IsConfirmed found eligible (a ∷ rest) h = elim (Bool-cases (text_eq a.id mid)) [
    | inl named ↦
        let (e, decided, h1) =
          >>=-eq-ok (confirmed_achievement env.unicode env.json m a runs) _
            (if_true _ _ _ named h) in
        elim (found-IsConfirmed true e rest h1) [
          | inl (b, i, same, done) ↦ inl (b, later i, same, done)
          | inr (_, good) ↦ inl (a, first, text_eq→eq a.id mid named, decided ∙ ap ok good)
        ]
    | inr other ↦ elim (found-IsConfirmed found eligible rest (if_false _ _ _ other h)) [
      | inl (b, i, same, done) ↦ inl (b, later i, same, done)
      | inr before ↦ inr before
    ]
  ]

  eligible-IsConfirmed :
      (e : EvaluationContract)
      → m.evaluation ≡ some e
      → is_eligible env m mid runs ≡ ok true
      → IsConfirmed env m mid runs m.milestones
  unfolding is_eligible
  eligible-IsConfirmed e locked h =
      let there = ap (λ (c : Option EvaluationContract). is_some c) locked in
      elim (found-IsConfirmed false true m.milestones (if_true _ _ _ there h)) [
        | inl done ↦ done
        | inr before ↦ absurd (let none_before = before.0 in cc)
      ]

-- Where a round goes on to the next number under an evaluation contract, and a milestone that was
-- free is held after it, the holder is the submission with that number, the manifest locks an
-- achievement with that id, and unless it has no predicates two runs of that submission, of different
-- jobs, each show every predicate.
pub round-Shows :
    (env : Env) (m : Manifest) (e : EvaluationContract) (db db' : Db) (s s' : Standing)
    (mid id : Bytes)
    → round env m db s ≡ go db' s'
    → m.evaluation ≡ some e
    → holder mid db.claims ≡ none
    → holder mid db'.claims ≡ some id
    → (ss : Submission) × (a : Milestone) × (runs : List RunReceipt) × (find_sequence
          (s.watermark + 1)
          db.submissions
        ≡ some ss)
      × (ss.id ≡ id)
      × In a m.milestones
      × (a.id ≡ mid)
      × (measured env m ss ≡ ok runs)
      × ((is_empty a.requires ≡ true) ⊎ ShownTwice env.unicode env.json m e a runs)
round-Shows env m e db db' s s' mid id h locked free held =
    let (ss, _, _, found, same, _, _, _, _, runs, read, eligible, _) =
      round-holder env m db db' s s' mid id h free held in
    let (a, i, named, confirmed) = eligible-IsConfirmed env m mid runs e locked eligible in
    let shown : (is_empty a.requires ≡ true) ⊎ ShownTwice env.unicode env.json m e a runs =
      elim (Bool-cases (is_empty a.requires)) [
        | inl none_asked ↦ inl none_asked
        | inr asked ↦
            inr (confirmed_achievement-Shows env.unicode env.json m e a runs locked asked confirmed)
      ] in
    (ss, a, runs, found, same, i, named, read, shown)
