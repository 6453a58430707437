-- ===== src/Adjudication/Judge.antt =====
-- What adjudication decides about one submission, before anything is written.
use science_ladder.Base.{
  ℕ, ◌+◌, Bool, true, false, ◌&&◌, ◌||◌, not, Option, none, some, List, [], ◌∷◌, if◌then◌else◌,
  Bytes, text, is_empty, is_some, text_eq, Result, ok, err, message, ◌>>=◌,
}
use science_ladder.Compare.{better, crosses, meaningful}
use science_ladder.Adjudication.Rows.{Submission, Tier, Claim, Env}
use science_ladder.Results.{RunReceipt}
use science_ladder.Results.Evidence.{confirmed_achievement}
use science_ladder.Manifest.{Manifest, Milestone}

-- The local variables of the loop.
pub record Standing : Type 0 where
  pub watermark : ℕ
  pub best : Bytes
  pub frontier : Bytes
  pub best_id : Option Bytes
  pub frontier_id : Option Bytes

-- What the body of the loop decides.
pub record Verdict : Type 0 where
  pub milestones : List Bytes
  pub is_record : Bool
  pub is_advance : Bool
  pub publish : Bool

abbrev pub is_valid : Bytes → Bool
is_valid outcome = text_eq outcome (text "valid")

-- `c.id IS NULL`: no claim of the milestone.
unfoldable pub is_claimed : Bytes → List Claim → Bool
is_claimed mid [] = false
is_claimed mid (c ∷ cs) = text_eq c.milestone mid || is_claimed mid cs

unfoldable pub unmarshal_all : Env → List Bytes → Result (List RunReceipt)
unmarshal_all env [] = ok []
unmarshal_all env (r ∷ rs) = do
  run ← env.unmarshal_run r
  runs ← unmarshal_all env rs
  ok (run ∷ runs)

-- The loop over `m.Milestones`: the last one with the id decides.
unfoldable pub find_milestone :
    Env → Manifest → Bytes → List RunReceipt → Bool → Bool → List Milestone → Result Bool
unfolding confirmed_achievement
find_milestone env m mid runs found eligible [] =
    if found
    then ok eligible
    else err (message "milestone mapping does not match locked evaluation")
find_milestone env m mid runs found eligible (a ∷ rest) =
    let other = find_milestone env m mid runs found eligible rest in
    let this = (do
      e ← confirmed_achievement env.unicode env.json m a runs
      find_milestone env m mid runs true e rest) in
    if text_eq a.id mid then this else other

unfoldable pub is_eligible : Env → Manifest → Bytes → List RunReceipt → Result Bool
unfolding find_milestone
is_eligible env m mid runs =
    if is_some m.evaluation then find_milestone env m mid runs false true m.milestones else ok true

-- The loop over the open milestones.
unfoldable pub crossed :
    Env → Manifest → Bytes → List RunReceipt → List Claim → List Tier → Result (List Bytes)
crossed env m score runs claims [] = ok []
crossed env m score runs claims (t ∷ ts) =
    let rest = crossed env m score runs claims ts in
    if is_claimed t.id claims then rest else do
      eligible ← is_eligible env m t.id runs
      more ← rest
      ok (if eligible && crosses score t.threshold m.metric.direction then t.id ∷ more else more)

-- A submission that is not valid, or has no score, claims nothing.
abbrev pub plain_verdict : Submission → Verdict
plain_verdict ss = record {
  milestones = [];
  is_record = false;
  is_advance = false;
  publish = ss.publish_requested;
}

abbrev pub scored_verdict : Manifest → Standing → Submission → Bytes → List Bytes → Verdict
scored_verdict m s ss score mids =
    let publish = ss.publish_requested || not (is_empty mids) in
    record {
      milestones = mids;
      is_record = better score s.best m.metric.direction;
      is_advance = publish && meaningful score s.frontier m.metric;
      publish = publish;
    }

-- `measurementRuns`
abbrev pub measured : Env → Manifest → Submission → Result (List RunReceipt)
measured env m ss = if is_some m.evaluation then unmarshal_all env ss.measured_runs else ok []

abbrev pub judge_score :
    Env → Manifest → Standing → List Tier → List Claim → Submission → Bytes → Result Verdict
judge_score env m s tiers claims ss score = do
  runs ← measured env m ss
  mids ← crossed env m score runs claims tiers
  ok (scored_verdict m s ss score mids)

abbrev pub by_score :
    Env → Manifest → Standing → List Tier → List Claim → Submission → Option Bytes → Result Verdict
by_score env m s tiers claims ss none = ok (plain_verdict ss)
by_score env m s tiers claims ss (some score) = judge_score env m s tiers claims ss score

-- `if outcome == "valid" && score != nil`
unfoldable pub judge :
    Env → Manifest → Standing → List Tier → List Claim → Submission → Result Verdict
judge env m s tiers claims ss =
    if is_valid ss.outcome then by_score env m s tiers claims ss ss.score else ok (plain_verdict ss)

abbrev pub advance_to : Bool → Option Bytes → Bytes → Bytes
advance_to true (some score) old = score
advance_to _ _ old = old

-- The standing after the submission.
unfoldable pub next_standing : Standing → Submission → Verdict → Standing
next_standing s ss v = record {
  watermark = s.watermark + 1;
  best = advance_to v.is_record ss.score s.best;
  frontier = advance_to v.is_advance ss.score s.frontier;
  best_id = if v.is_record then some ss.id else s.best_id;
  frontier_id = if v.is_advance then some ss.id else s.frontier_id;
}
