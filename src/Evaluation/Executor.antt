-- ===== src/Evaluation/Executor.antt =====
-- pkg/protocol/evaluation.go: the executor that a contract asks for.
use science_ladder.Base.{
  is_in, ◌&&◌, ◌||◌, not, List, [], ◌∷◌, ltb, Bytes, text, is_empty, text_eq, length, Result, ok,
  message, ◌>>◌, reject_if,
}
use science_ladder.Evaluation.{ExecutorRequirements, is_identifier}

unfoldable pub check_features : List Bytes → List Bytes → Result (Unit {0})
unfolding is_identifier
check_features seen [] = ok tt
check_features seen (f ∷ fs) = do
  reject_if (not (is_identifier f) || is_in f seen) (message "invalid or repeated capability")
  check_features (f ∷ seen) fs

unfoldable pub validate_executor : ExecutorRequirements → Result (Unit {0})
unfolding check_features
validate_executor r = do
  reject_if
      (not (text_eq r.os (text "linux") || text_eq r.os (text "darwin"))
        || not (text_eq r.architecture (text "amd64") || text_eq r.architecture (text "arm64")))
      (message "unsupported executor architecture or OS")
  reject_if
      (not (
        text_eq r.accelerator (text "none")
        || text_eq r.accelerator (text "metal")
        || text_eq r.accelerator (text "cuda")))
      (message "unknown accelerator")
  reject_if
      (text_eq r.accelerator (text "metal")
        && not (text_eq r.os (text "darwin") && text_eq r.architecture (text "arm64")))
      (message "Metal requires macOS arm64")
  reject_if (text_eq r.accelerator (text "cuda") && not (text_eq r.os (text "linux")))
      (message "CUDA requires a Linux executor")
  reject_if (is_empty r.features || ltb 32 (length r.features))
      (message "explicit executor capabilities required")
  check_features [] r.features
  reject_if (not (is_in (text "isolated-checker") r.features))
      (message "isolated checker capability required")
