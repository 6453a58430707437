-- ===== src/Evaluation/Stage.antt =====
-- pkg/protocol/evaluation.go: the commands that a contract freezes.
use science_ladder.Base.{
  ◌||◌, not, List, [], ◌∷◌, ltb, Bytes, has_char, text_eq, length, Result, ok, message, ◌>>◌,
  reject_if,
}
use science_ladder.Artifacts.{is_rooted, clean}

abbrev pub first_of : List Bytes → Bytes
first_of [] = []
first_of (s ∷ ss) = s

unfoldable pub check_arguments : List Bytes → Result (Unit {0})
check_arguments [] = ok tt
check_arguments (s ∷ ss) = do
  reject_if (ltb 4096 (length s) || has_char 0 s) (message "invalid stage argument")
  check_arguments ss

unfoldable pub validate_stage_argv : List Bytes → Result (Unit {0})
unfolding check_arguments clean text_eq
validate_stage_argv argv = do
  reject_if
      (ltb (length argv) 1
        || ltb 64 (length argv)
        || not (is_rooted (first_of argv))
        || not (text_eq (clean (first_of argv)) (first_of argv)))
      (message "stage requires an absolute direct command")
  check_arguments argv
