-- ===== src/Evaluation/Proof.antt =====
-- pkg/protocol/proof.go: the products of a build and the proof contract; pkg/protocol/evaluation.go:
-- the program that a candidate is.
use science_ladder.Base.{
  ◌^◌, Bool, true, false, ◌&&◌, ◌||◌, not, Option, none, some, List, [], ◌∷◌, ltb, if◌then◌else◌,
  Bytes, text, is_empty, has_prefix, has_char, is_in, text_eq, length, Result, ok, err, message,
  ◌>>=◌, ◌>>◌, reject_if, is_ok,
}
use science_ladder.Base.Int.{ℤ, pos, ltb_ℤ, ◌+ℤ◌, scale}
use science_ladder.Lease.{wrap}
use science_ladder.Digests.{valid_digest}
use science_ladder.Artifacts.{Unicode, validate_path}

pub record StageBudget : Type 0 where
  pub timeout_seconds : ℤ
  pub memory_mb : ℤ
  pub max_output_bytes : ℤ
  pub max_processes : ℤ
  pub max_file_bytes : ℤ

pub record BuildProduct : Type 0 where
  pub path : Bytes
  pub max_bytes : ℤ

pub record CandidateProgram : Type 0 where
  pub build : List Bytes
  pub run : List Bytes
  pub build_budget : StageBudget
  pub run_budget : StageBudget
  pub max_runs : ℤ
  pub min_runs : ℤ
  pub scratch_mb : ℤ
  pub products : List BuildProduct

pub record ProofContract : Type 0 where
  pub format : Bytes
  pub statement_path : Bytes
  pub statement_digest : Bytes
  pub certificate_path : Bytes
  pub allowed_axioms : List Bytes
  pub check_description : Bytes

-- `int64(p.ScratchMB)<<20`
abbrev pub scratch_bytes : CandidateProgram → ℤ
scratch_bytes p = wrap (scale p.scratch_mb (2 ^ 20))

-- The loop over the products; the answer is their total size. Each is at most 2 ^ 34 bytes and there
-- are at most 64, so the sum of int64 does not wrap.
unfoldable pub check_products : Unicode → List Bytes → ℤ → List BuildProduct → Result ℤ
unfolding validate_path text_eq ◌+ℤ◌
check_products u seen total [] = ok total
check_products u seen total (p ∷ ps) = do
  reject_if
      (not (is_ok (validate_path u p.path))
        || is_in p.path seen
        || ltb_ℤ p.max_bytes (pos 1)
        || ltb_ℤ (pos 17179869184) p.max_bytes)
      (message "invalid frozen build product")
  check_products u (p.path ∷ seen) (total +ℤ p.max_bytes) ps

unfoldable pub validate_build_products : Unicode → CandidateProgram → Result (Unit {0})
unfolding check_products wrap scale
validate_build_products u p = do
  reject_if (ltb 64 (length p.products)) (message "too many declared build products")
  total ← check_products u [] (pos 0) p.products
  reject_if (ltb_ℤ (scratch_bytes p) total)
      (message "build products exceed candidate scratch budget")

-- The loop over the allowed axioms.
unfoldable pub check_axioms : List Bytes → List Bytes → Result (Unit {0})
unfolding text_eq
check_axioms seen [] = ok tt
check_axioms seen (a ∷ rest) = do
  reject_if
      (is_empty a
        || ltb 256 (length a)
        || has_char 10 a
        || has_char 13 a
        || has_char 0 a
        || is_in a seen)
      (message "invalid or repeated allowed axiom")
  check_axioms (a ∷ seen) rest

abbrev pub has_product : Bytes → List BuildProduct → Bool
has_product path [] = false
has_product path (p ∷ ps) = text_eq p.path path || has_product path ps

abbrev pub has_certificate : ProofContract → Option CandidateProgram → Bool
has_certificate p none = true
has_certificate p (some program) = has_product p.certificate_path program.products

-- The checks of a proof contract that is there.
unfoldable pub check_proof : Unicode → ProofContract → Option CandidateProgram → Result (Unit {0})
unfolding validate_path valid_digest check_axioms text_eq
check_proof u p program = do
  reject_if
      (not (is_ok (validate_path u p.statement_path))
        || not (has_prefix p.statement_path (text "statements/"))
        || not (valid_digest p.statement_digest)
        || not (is_ok (validate_path u p.certificate_path))
        || ltb (length (u.trim_space p.check_description)) 20
        || ltb 8192 (length p.check_description))
      (message "proof requires a frozen statement, certificate and replay description")
  reject_if
      (not (
        text_eq p.format (text "drat")
        || text_eq p.format (text "lean")
        || text_eq p.format (text "other")))
      (message "unknown proof format")
  reject_if
      (ltb 128 (length p.allowed_axioms)
        || (text_eq p.format (text "drat") && not (is_empty p.allowed_axioms)))
      (message "invalid axiom policy")
  check_axioms [] p.allowed_axioms
  reject_if (not (has_certificate p program))
      (message "compiled proof certificate must be a declared sealed product")

unfoldable pub validate_proof_contract :
    Unicode → Bytes → Option ProofContract → Option CandidateProgram → Result (Unit {0})
unfolding check_proof text_eq
validate_proof_contract u mode none program =
    if text_eq mode (text "proof")
    then err (message "proof requires a frozen statement, certificate and replay description")
    else ok tt
validate_proof_contract u mode (some p) program = do
  reject_if (not (text_eq mode (text "proof") || text_eq mode (text "performance")))
      (message "proof contract requires proof or proof-checked performance evaluation")
  check_proof u p program
