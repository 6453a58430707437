-- ===== src/Runner/Builds.antt =====
-- internal/platform/runners.go and preparation.go: the results of preparation jobs, as far as they
-- touch the rows of jobs.
use science_ladder.Base.{
  Bool, ◌&&◌, not, some, List, [], ◌∷◌, if◌then◌else◌, Bytes, text, text_eq, Result, ok, ◌>>=◌,
}
use science_ladder.Results.{RunReceipt}
use science_ladder.Runner.{RunnerJob, Runners, Env, Host, is_independent, is_build}
use science_ladder.Runner.Jobs.{new_row, insert_job}

-- What is not modelled of a build: the tests of its report (`validateBuild`,
-- `validateFixtureEvidence`), and what `commitBuild` does with the other tables: it may refuse, says
-- whether it found no earlier build of the preflight, and gives the receipts and the queue.
pub record Builds : Type 0 where
  pub check : Host → RunnerJob → RunReceipt → Result (Unit {0})
  pub write :
      RunnerJob
      → RunReceipt
      → Bytes
      → Bytes
      → Runners
      → Result (Bool × List Bytes × List (Bytes × Bytes))

unfoldable pub check_build : Builds → Host → RunnerJob → RunReceipt → Result (Unit {0})
unfolding text_eq
check_build builds host job run =
    if is_build job.purpose && text_eq run.outcome (text "valid")
    then builds.check host job run
    else ok tt

-- The second preflight, on an independent host.
abbrev pub next_preflight : Env → RunnerJob → RunReceipt → RunnerJob
next_preflight env job run = record job {
  id = env.new_id;
  created_at = env.now;
  required_host_group = [];
  excluded_host_ids = run.host_id ∷ [];
  fencing_token = 1;
}

-- Only a valid preflight under the policy `independent` asks for another one.
abbrev pub asks_again : Bool → RunnerJob → RunReceipt → Bool
asks_again is_first job run =
    is_first
    && text_eq run.outcome (text "valid")
    && not (text_eq job.purpose (text "artifact_prepare"))
    && is_independent job

-- `commitBuild`
unfoldable pub commit_build :
    Builds → Env → RunnerJob → RunReceipt → Bytes → Bytes → Runners → Result Runners
unfolding insert_job text_eq
commit_build builds env job run digest version db = do
  (is_first, receipts, queue) ← builds.write job run digest version db
  let written = record db { receipts = receipts; queue = queue }
  let row = new_row (next_preflight env job run) (text "preflight") version [] (some run.host_group)
  let asked = (do jobs ← insert_job row written.jobs; ok (record written { jobs = jobs }))
  (if asks_again is_first job run then asked else ok written)
