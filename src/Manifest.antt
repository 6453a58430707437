-- ===== src/Manifest.antt =====
-- pkg/protocol/types.go: the manifest of a challenge; pkg/protocol/assurance.go: its defaults. A time is
-- the number of nanoseconds since Go's zero time.
pub mod Sources
pub mod Ranking
pub mod Profile
pub mod Fixtures
pub mod Validate
use science_ladder.Base.{
  ◌-◌, ◌/◌, Bool, false, Option, none, some, List, if◌then◌else◌, Bytes, text, is_empty, text_eq,
}
use science_ladder.Base.Int.{ℤ}
use science_ladder.Metric.{Metric}
use science_ladder.Artifacts.Contract.{SubmissionContract}
use science_ladder.Evaluation.Contract.{EvaluationContract, Resources}
use science_ladder.Evaluation.Values.{MeasurementPredicate}

pub record Source : Type 0 where
  pub publication_date : Bytes
  pub identifier : Bytes
  pub url : Bytes
  pub title : Bytes
  pub evidence : Bytes
  pub location : Bytes
  pub accessed_at : Bytes

pub record Milestone : Type 0 where
  pub requires : List MeasurementPredicate
  pub id : Bytes
  pub title : Bytes
  pub threshold_ticks : Bytes
  pub rationale : Bytes

pub record Validator : Type 0 where
  pub profile : Bytes
  pub entrypoint : List Bytes
  pub dependency_lock : Bytes
  pub runtime_image_digest : Bytes

pub record Suite : Type 0 where
  pub visibility : Bytes
  pub path : Bytes
  pub commitment : Bytes
  pub reveal_at : Option ℤ

pub record Fixture : Type 0 where
  pub name : Bytes
  pub path : Bytes
  pub expected_outcome : Bytes
  pub expected_ticks : Bytes

pub record Manifest : Type 0 where
  pub evaluation : Option EvaluationContract
  pub verification_policy : Bytes
  pub api_version : Bytes
  pub kind : Bytes
  pub id : Bytes
  pub created_at : ℤ
  pub producer : Bytes
  pub slug : Bytes
  pub title : Bytes
  pub summary : Bytes
  pub scientific_question : Bytes
  pub evidence : List Source
  pub impact : Bytes
  pub limitations : List Bytes
  pub safety_classification : Bytes
  pub economic_mode : Bytes
  pub metric : Metric
  pub hard_gates : List Bytes
  pub milestones : List Milestone
  pub deadline : ℤ
  pub submission : SubmissionContract
  pub validator : Validator
  pub suite : Suite
  pub resources : Resources
  pub fixtures : List Fixture

abbrev pub manifest_v1 : Bytes
manifest_v1 = text "science-ladder/v1"

abbrev pub verification_platform : Bytes
verification_platform = text "platform"

-- `ManifestVerificationPolicy`, of the policy that the manifest names.
abbrev pub manifest_verification_policy : Bytes → Bytes
manifest_verification_policy policy = if is_empty policy then verification_platform else policy

abbrev pub has_mode : Bytes → Option EvaluationContract → Bool
has_mode mode none = false
has_mode mode (some e) = text_eq e.mode mode
