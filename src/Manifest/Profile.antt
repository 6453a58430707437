-- ===== src/Manifest/Profile.antt =====
-- pkg/protocol/validate.go: the validator, the suite and the resources of a manifest.
use science_ladder.Base.{
  ℕ, ◌-◌, ◌*◌, Bool, false, ◌&&◌, ◌||◌, not, Option, none, some, List, [], ◌∷◌, ltb, ◌==◌,
  if◌then◌else◌, Bytes, text, is_empty, has_prefix, has_suffix, trim_suffix, has_char, text_eq,
  length, Result, ok, message, ◌>>◌, reject_if, is_ok,
}
use science_ladder.Base.Int.{ℤ, pos, ltb_ℤ, ◌+ℤ◌, scale}
use science_ladder.Lease.{manifest_v2}
use science_ladder.Digests.{valid_digest}
use science_ladder.Artifacts.{Unicode, validate_path, clean}
use science_ladder.Artifacts.Contract.{source_v2}
use science_ladder.Evaluation.Contract.{EvaluationContract, Resources, outside_ℤ}
use science_ladder.Manifest.{Validator, Suite, has_mode}

abbrev pub is_v2 : Bytes → Bool
is_v2 api_version = text_eq api_version manifest_v2

abbrev pub artifact_checker : Bytes
artifact_checker = text "artifact-checker-v1"

abbrev pub is_native : Bytes → Validator → Bool
is_native api_version v = is_v2 api_version && text_eq v.profile (text "native-evaluator-v2")

abbrev pub argument : List Bytes → ℕ → Bytes
argument [] i = []
argument (s ∷ ss) i = if i == 0 then s else argument ss (i - 1)

unfoldable pub check_argv : List Bytes → Result (Unit {0})
check_argv [] = ok tt
check_argv (s ∷ ss) = do
  reject_if (ltb 1024 (length s) || has_char 0 s) (message "invalid argv")
  check_argv ss

abbrev pub is_python_checker : Bytes → Bool
is_python_checker s =
    has_prefix s (text "/sl/challenge/") && text_eq (clean s) s && has_suffix s (text ".py")

-- The parts of a manifest that the profile is checked against: its version, the format of its
-- submissions and its evaluation.
unfoldable pub validate_profile :
    Unicode → Bytes → Bytes → Option EvaluationContract → Validator → Result (Unit {0})
unfolding validate_path valid_digest clean check_argv text_eq
validate_profile u api_version format e v =
    let native = is_native api_version v in
    let is_source = text_eq format source_v2 in
    do
      reject_if
          ((not native && not (text_eq v.profile artifact_checker))
            || is_empty v.dependency_lock
            || not (valid_digest v.runtime_image_digest))
          (message "locked, supported runtime profile and dependency lock required")
      reject_if (is_source && not native)
          (message "executable source requires the native evaluation profile")
      reject_if
          (native
            && (has_mode (text "program") e || has_mode (text "performance") e)
            && not is_source)
          (message "submitted programs require source-v2 artifact semantics")
      reject_if (has_other_mode e && text_eq v.profile artifact_checker) (
          message
            "proof, program and performance evaluation require a separately enrolled native execution profile")
      reject_if (not (is_ok (validate_path u v.dependency_lock)))
          (message "dependency lock must be a safe relative source path")
      reject_if
          (ltb (length v.entrypoint) 2
            || ltb 16 (length v.entrypoint)
            || not (text_eq (argument v.entrypoint 0) (text "/usr/local/bin/python3")))
          (message "validator entrypoint must be a direct Python argv")
      reject_if (not (is_python_checker (argument v.entrypoint 1)))
          (message "validator entrypoint must name a locked Python checker")
      check_argv v.entrypoint
  where
    has_other_mode : Option EvaluationContract → Bool
    has_other_mode none = false
    has_other_mode (some e) = not (text_eq e.mode (text "artifact"))

unfoldable pub validate_suite : Unicode → Suite → Result (Unit {0})
unfolding validate_path valid_digest text_eq
validate_suite u s = do
  reject_if
      (not (text_eq s.visibility (text "public")) && not (text_eq s.visibility (text "hidden")))
      (message "suite visibility required")
  reject_if (not (is_ok (validate_path u (trim_suffix s.path (text "/")))))
      (message "invalid suite path")
  reject_if (text_eq s.visibility (text "hidden") && not (valid_digest s.commitment))
      (message "hidden suite requires precommitment")

unfoldable pub is_class : Bool → Bytes → Bool
unfolding text_eq
is_class v2 c =
    text_eq c (text "cpu-small")
    || text_eq c (text "cpu-medium")
    || (v2 && (text_eq c (text "cpu-large") || text_eq c (text "accelerator")))

abbrev pub limit : Bool → ℕ → ℕ → ℤ
limit v2 large small = if v2 then pos large else pos small

unfoldable pub exceeds_bounds : Bool → Resources → Bool
exceeds_bounds v2 r =
    outside_ℤ r.vcpu (pos 1) (limit v2 64 4)
    || outside_ℤ r.memory_mb (pos 128) (limit v2 524288 8192)
    || outside_ℤ r.timeout_seconds (pos 1) (limit v2 7200 600)
    || outside_ℤ r.max_output_bytes (pos 1024) (pos 65536)

-- The seconds of the preflight schedule. The bounds above keep it far below int64.
abbrev pub schedule : ℕ → Resources → ℤ
schedule fixtures r = scale (r.timeout_seconds +ℤ pos 60) (2 * fixtures) +ℤ pos 600

-- The resources, with the number of fixtures.
unfoldable pub validate_resources : Bool → ℕ → Resources → Result (Unit {0})
unfolding is_class exceeds_bounds ◌+ℤ◌ scale
validate_resources v2 fixtures r = do
  reject_if (not (is_class v2 r.class)) (message "unsupported resource class")
  reject_if (exceeds_bounds v2 r) (message "resource class bounds exceeded")
  reject_if (ltb fixtures 4 || ltb 100 fixtures)
      (message "at least baseline, valid, invalid and malformed fixtures required")
  reject_if (v2 && ltb_ℤ (pos 64800) (schedule fixtures r))
      (message "declared preflight schedule exceeds the 18-hour authorization envelope")
