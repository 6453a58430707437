-- ===== src/Tests/Locked.antt =====
-- A challenge of version 1 and one of version 2, with the results of two runs.
use science_ladder.Base.{
  ℕ, zero, suc, true, false, Option, none, some, List, [], ◌∷◌, ◌++◌, Bytes, text, ok,
}
use science_ladder.Base.Int.{pos}
use science_ladder.Metric.{Metric, maximize}
use science_ladder.Lease.{manifest_v2}
use science_ladder.Artifacts.{Unicode}
use science_ladder.Evaluation.{MeasurementDefinition, MetricRationale, ExecutorRequirements}
use science_ladder.Evaluation.Contract.{EvaluationContract, Resources, evaluation_version}
use science_ladder.Evaluation.Values.{MeasurementPredicate}
use science_ladder.Manifest.{Manifest, Source, Milestone, Fixture, manifest_v1}
use science_ladder.Manifest.Sources.{Url}
use science_ladder.Results.{ValidatorResult, RunReceipt, Json}

abbrev pub metric : Metric
metric = record {
  name = text "length";
  direction = maximize;
  unit = text "steps";
  quantum = text "0.5";
  baseline_ticks = text "10";
  minimum_delta_ticks = text "1";
  tolerance_ticks = text "0";
  domain_min_ticks = [];
  domain_max_ticks = [];
}

-- Plain ASCII.
abbrev pub unicode : Unicode
unicode = record {
  valid_utf8 = λ s. true;
  is_nfc = λ s. true;
  runes = λ s. s;
  trim_space = λ s. s;
  fold = λ s. s;
}

abbrev pub parse_url : Bytes → Option Url
parse_url s = some (record { scheme = text "https"; host = text "example.org"; has_user = false })

abbrev zeros : ℕ → Bytes
zeros zero = []
zeros (suc n) = b'0' ∷ zeros n

abbrev pub digest : Bytes
digest = text "sha256:" ++ zeros 64

abbrev milestone : Bytes → Bytes → List MeasurementPredicate → Milestone
milestone id ticks requires = record {
  requires = requires;
  id = id;
  title = text "A milestone";
  threshold_ticks = ticks;
  rationale = text "It matters";
}

abbrev pub low : Milestone
low = milestone (text "low") (text "12") []

abbrev pub high : Milestone
high = milestone (text "high") (text "14") []

abbrev fixture : Bytes → Bytes → Bytes → Fixture
fixture name outcome ticks = record {
  name = name;
  path = text "fixtures/" ++ name;
  expected_outcome = outcome;
  expected_ticks = ticks;
}

abbrev pub resources : Resources
resources = record {
  class = text "cpu-small";
  vcpu = pos 1;
  memory_mb = pos 512;
  timeout_seconds = pos 60;
  max_output_bytes = pos 4096;
}

abbrev source : Source
source = record {
  publication_date = [];
  identifier = [];
  url = text "https://example.org";
  title = text "A paper";
  evidence = text "A table";
  location = text "Page 1";
  accessed_at = [];
}

abbrev pub manifest : Manifest
manifest = record {
  evaluation = none;
  verification_policy = [];
  api_version = manifest_v1;
  kind = text "ChallengeManifest";
  id = text "challenge-1";
  created_at = pos 1;
  producer = text "ada";
  slug = text "long-paths";
  title = text "Long paths";
  summary = text "Find a long path";
  scientific_question = text "How long?";
  evidence = source ∷ [];
  impact = text "Some";
  limitations = text "One graph" ∷ [];
  safety_classification = text "low-risk-computational";
  economic_mode = text "none";
  metric = metric;
  hard_gates = text "simple" ∷ [];
  milestones = low ∷ high ∷ [];
  deadline = pos 2;
  submission = record {
    format = [];
    allowed_paths = text "paths/" ∷ [];
    allowed_extensions = text ".json" ∷ [];
    max_bytes = pos 1024;
    max_files = pos 4;
    license = text "CC0-1.0";
  };
  validator = record {
    profile = text "artifact-checker-v1";
    entrypoint = text "/usr/local/bin/python3" ∷ text "/sl/challenge/check.py" ∷ [];
    dependency_lock = text "lock.txt";
    runtime_image_digest = digest;
  };
  suite = record {
    visibility = text "public";
    path = text "suite/";
    commitment = [];
    reveal_at = none;
  };
  resources = resources;
  fixtures =
      fixture (text "baseline") (text "valid") (text "10")
      ∷ fixture (text "valid") (text "valid") []
      ∷ fixture (text "invalid") (text "invalid_output") []
      ∷ fixture (text "malformed") (text "invalid_output") []
      ∷ [];
}

abbrev pub path_length : MeasurementDefinition
path_length = record {
  name = text "length";
  kind = text "integer";
  unit_of = text "steps";
  role = text "primary";
  interpretation = text "direct";
  definition = text "the length of the path";
  minimum = text "0";
  maximum = [];
}

abbrev executor : ExecutorRequirements
executor = record {
  os = text "linux";
  architecture = text "amd64";
  accelerator = text "none";
  hardware_class = [];
  features = text "isolated-checker" ∷ [];
}

abbrev rationale : MetricRationale
rationale = record {
  objective = text "Find longer paths";
  improvement_meaning = text "The path is longer";
  evidence_urls = text "https://example.org" ∷ [];
  preserved_conditions = text "The graph is the same" ∷ [];
  baseline_reason = text "The best known path";
  meaningful_delta = text "One more step counts";
  proxy_attacks = text "Repeating a vertex" ∷ [];
  permitted_claim = text "A path of that length exists";
  excluded_claims = text "No longer path exists" ∷ [];
}

abbrev pub contract : EvaluationContract
contract = record {
  version = evaluation_version;
  mode = text "artifact";
  comparison_id = text "paths-1";
  executor = executor;
  measurements = path_length ∷ [];
  rationale = rationale;
  program = none;
  measurement = none;
  proof = none;
  assets = [];
}

abbrev pub at_least_six : MeasurementPredicate
at_least_six = record { measurement = text "length"; operator = text "ge"; value = text "6" }

-- The threshold is in half steps, the predicate in steps.
abbrev pub long : Milestone
long = milestone (text "long") (text "12") (at_least_six ∷ [])

abbrev pub measured_manifest : Manifest
measured_manifest = record manifest {
  api_version = manifest_v2;
  evaluation = some contract;
  milestones = long ∷ [];
}

abbrev pub typed : ValidatorResult
typed = record {
  timing = none;
  comparison_id = text "paths-1";
  measurements = (text "length", text "7") ∷ [];
  api_version = manifest_v2;
  kind = text "ValidatorResult";
  score = text "7";
  gates = (text "simple", true) ∷ [];
}

abbrev pub run : Bytes → RunReceipt
run job = record {
  validator_result = some typed;
  parent_job_digest = [];
  verification_policy = text "independent";
  acceptance_receipt_digest = digest;
  deployment_mode = text "local";
  official_acceptance = false;
  api_version = manifest_v1;
  kind = text "ValidationRunReceipt";
  id = text "run-of-" ++ job;
  created_at = 50;
  producer = text "ada";
  job_id = job;
  job_digest = digest;
  challenge_lock_digest = digest;
  artifact_digest = digest;
  suite_digest = digest;
  execution_profile_digest = digest;
  runner_epoch = text "1";
  fencing_token = 1;
  host_id = text "host-1";
  host_group = text "group-1";
  official = true;
  outcome = text "valid";
  score_ticks = text "14";
  gates = (text "simple", true) ∷ [];
  duration_millis = 9;
  cleanup_attested = true;
}

abbrev pub json : Json
json = record { decode_strict = λ s. ok typed; marshal = λ r. ok [] }
