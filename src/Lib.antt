-- ===== src/Lib.antt =====
-- Science Ladder: a verification library for the core of the platform.
--
-- A challenge version has a locked manifest with a metric, milestones and, in version 2, an
-- evaluation contract. pkg/protocol/validate.go accepts a manifest. Hosts claim jobs of
-- internal/platform/runners.go, run the checker and send results, which pkg/protocol checks and
-- scores.go turns into exact integer ticks, rounded against the solver. Two runs confirm a score;
-- pkg/protocol/frontier_claim.go says whether a local result may ask for hosted verification.
-- internal/platform/adjudication.go then takes the validated submissions in the order of their
-- sequence numbers, awards milestones, and moves the verified best and the public frontier, in one
-- database transaction, and internal/audit publishes what happened.
--
-- Shared files:
--   Base: Boolean tests, lists, integers (Go's `big.Int`), byte strings, and `Result` for Go's
--     `(value, error)`.
--   Digests: ValidDigest of pkg/protocol/canonical.go.
--   Tests: runs at concrete inputs.
--
-- Scores:
--   Ticks: ParseTicks, `big.Int.SetString` and `String` of pkg/protocol/scores.go; Ticks/Digits and
--     Ticks/RoundTrip hold the proofs.
--   Decimal: `decimal` of scores.go. A `big.Rat` is a numerator and a positive denominator, not
--     reduced, since only its value is read.
--   Metric, Score: the metric of types.go; NormalizeScore, Qualifies, ConfirmScores of scores.go.
--     Score/Rounding, Score/Normal and Score/Confirm hold the proofs.
--   Frontier: FrontierImprovement and AdmissionFrontier of frontier_claim.go.
--   Compare: better, crosses, meaningful and ConfirmedScore of adjudication.go; Compare/Agree
--     relates them to the protocol's own rules.
--
-- Manifests:
--   Artifacts: paths and files of pkg/protocol/artifacts.go. Artifacts/Contract has
--     ValidateSubmissionContract of validate.go, Artifacts/Tree has treeFor, Artifacts/Paths the
--     proofs. What the code takes from the Unicode packages is the record `Unicode`.
--   Evaluation: pkg/protocol/evaluation.go and proof.go. Evaluation has the types; Rationale,
--     Executor, Measured, Stage, Proof and Assets have the parts of ValidateEvaluation, which is in
--     Evaluation/Contract; Evaluation/Match has MatchExecutor; Evaluation/Values has the measured
--     values and the predicates of milestones, with proofs in Values/Predicates and Values/Total.
--   Timing: the loops over timing trials and medianIntervalIndex of pkg/protocol/measurement.go;
--     Timing/Policy has ValidateMeasurementPolicy, Timing/Ratio the fractions, Timing/Summary has
--     SummarizeTimings and ValidateTimingEvidence, Timing/Interval the proofs.
--   Manifest: types.go and assurance.go. Manifest/Sources, Ranking, Profile and Fixtures have the
--     parts of ValidateManifest, which is in Manifest/Validate; Ranking/Read and Ranking/Improve
--     hold the proofs. `url.Parse` is a parameter.
--
-- Runs and their results:
--   Results has ValidateResult and ValidatorOutcome of scores.go, with JSON as the record `Json`;
--     Results/Evidence has ValidateRunMeasurementEvidence and ConfirmedAchievement of
--     evaluation.go, Results/Measured the repeats of measurement.go, Results/Claim the claims of
--     frontier_claim.go. Results/Ranked and Results/Achieved hold the proofs.
--
-- The platform:
--   Runner: internal/platform/runners.go over the rows of jobs, results and submissions.
--     Runner/Jobs has queueSubmission, recoverRunnerLeases and queuePreparation of preparation.go,
--     Runner/Claim the compare-and-set that ends claimRunnerJob, Runner/Bindings the checks of
--     runnerResult, Runner/Commit and Runner/Settle its transaction, Runner/Builds the second
--     preflight of commitBuild of preparation.go, Runner/Cancel the cancellation of editorial.go,
--     Runner/Delegated has verifyHostDelegation. The checks of a build report and what commitBuild
--     does with other tables are the record `Builds` of arbitrary functions. Runner/Phases has the
--     life of a job and the transactions that write `runner_jobs`, as relations; Rows, AllRows, Keyed,
--     Adds, Changes, RowMoves, Moves, Life, Races and Confirms hold the proofs.
--   Adjudication: Server.adjudicate. Adjudication/Rows has the tables, restricted to one challenge
--     version whose manifest is decoded, and the libraries as the record `Env`: random ids, the clock, the digests of
--     receipts and events, JSON and Unicode, all arbitrary functions. Adjudication/Judge decides
--     about one submission, Adjudication/Write executes the statements of the loop's body,
--     Adjudication/Run is the loop. The other files prove: Steps takes a round apart, Order is
--     about sequence numbers, Claims, Crossed and Milestones about milestone claims, Achieved about
--     the measurements behind them, Verdict, Record and Best about the best score, Books about
--     capacity and the audit log, Ends about termination.
--   Lease: JobLeaseDuration and MatchJobLease of pkg/protocol/lease.go, with the wrap-around of an
--     int64.
--
-- The public log:
--   Signing: Verify of pkg/protocol/signatures.go. SHA-256, base64, CanonicalJSON and the test of a
--     P-256 signature are the record `Crypto` of arbitrary functions; a key is its encoding.
--     Signing/Trust holds the proof.
--   Audit: internal/audit. Audit/Merkle has the digests, sequence numbers and MerkleRoot of
--     checkpoint.go, Audit/Checkpoint has Build and VerifyCheckpoint, Audit/Quorum has VerifyQuorum,
--     Audit/History has VerifyHistory of history.go, and Audit/History/Active has KeysAt,
--     WitnessOperatorsAt and IntakeAllowed. JSON, PEM and key parsing are parameters. The children
--     Merkle/Shape, Checkpoint/Log, Quorum/Votes, History/Keep and History/Distinct hold the proofs.
--
-- Strings are lists of bytes. A Go map is an association list in which a key stands once. A time is
-- a number of nanoseconds. A message of an error leaves out the values that the code formats into
-- it. An error of the database is `fault`; an error rolls the transaction back, so a call returns
-- new rows or an error. Requests and the timer of the platform are steps on the rows, one
-- transaction each, in any order.
-- The loop of `adjudicate` has fuel: one round for each sequence number up to the highest that is
-- stored, and one more to stop, which is enough since a round that goes on has found the submission
-- with the next number. The Merkle tree has as much fuel as leaves, which is enough since both parts
-- of a split are shorter than the whole.
--
-- Not modelled: how claimRunnerJob selects and signs a job, and the build reports of preparation jobs,
-- which are SQL and cryptography around the rows above; the other HTTP handlers
-- over SQL; the runner's virtual machines; reading artifact directories and archives;
-- ValidateCandidate for drafts; hidden suites; the witness service; and the command line tools.
mod Base
mod Tests
pub mod Ticks
pub mod Decimal
pub mod Manifest
pub mod Results
pub mod Runner
pub mod Metric
pub mod Score
pub mod Frontier
pub mod Compare
pub mod Adjudication
pub mod Signing
pub mod Audit
pub mod Lease
pub mod Digests
pub mod Timing
pub mod Evaluation
pub mod Artifacts
