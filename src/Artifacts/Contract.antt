-- ===== src/Artifacts/Contract.antt =====
-- pkg/protocol/validate.go: `ValidateSubmissionContract`; pkg/protocol/artifacts.go: the files that a
-- contract allows.
use science_ladder.Base.{
  ℕ, Bool, true, false, ◌&&◌, ◌||◌, not, List, [], ◌∷◌, map, ltb, leb, ◌==◌, if◌then◌else◌, Bytes,
  text, is_empty, has_prefix, has_suffix, trim_suffix, is_in, text_eq, length, Result, ok, message,
  ◌>>◌, reject_if, take,
}
use science_ladder.Base.Int.{ℤ, pos, ltb_ℤ}
use science_ladder.Artifacts.{Unicode, validate_path, lower}

pub record SubmissionContract : Type 0 where
  pub format : Bytes
  pub allowed_paths : List Bytes
  pub allowed_extensions : List Bytes
  pub max_bytes : ℤ
  pub max_files : ℤ
  pub license : Bytes

abbrev pub source_v2 : Bytes
source_v2 = text "source-v2"

unfoldable pub check_allowed_paths : Unicode → List Bytes → Result (Unit {0})
unfolding validate_path
check_allowed_paths u [] = ok tt
check_allowed_paths u (p ∷ ps) = do
  validate_path u (trim_suffix p (text "/"))
  check_allowed_paths u ps

abbrev pub is_lower_or_digit : ℕ → Bool
is_lower_or_digit c = (leb b'a' c && leb c b'z') || (leb b'0' c && leb c b'9')

abbrev pub all_lower_or_digit : Bytes → Bool
all_lower_or_digit [] = true
all_lower_or_digit (c ∷ cs) = is_lower_or_digit c && all_lower_or_digit cs

-- `^\.[a-z0-9]{1,16}$`
unfoldable pub is_source_extension : Bytes → Bool
is_source_extension [] = false
is_source_extension (c ∷ cs) =
    c == b'.' && leb 1 (length cs) && leb (length cs) 16 && all_lower_or_digit cs

abbrev pub data_extensions : List Bytes
data_extensions =
    text ".json"
    ∷ text ".csv"
    ∷ text ".tsv"
    ∷ text ".txt"
    ∷ text ".dat"
    ∷ text ".npy"
    ∷ text ".bin"
    ∷ []

unfoldable pub check_extensions : Bool → List Bytes → Result (Unit {0})
unfolding is_source_extension text_eq
check_extensions is_source [] = ok tt
check_extensions is_source (e ∷ es) = do
  (if is_source
      then reject_if (ltb 17 (length e) || (not (is_empty e) && not (is_source_extension e)))
          (message "invalid source extension")
      else reject_if (not (is_in e data_extensions))
          (message "unsupported data artifact extension"))
  check_extensions is_source es

unfoldable pub validate_submission_contract : Unicode → SubmissionContract → Result (Unit {0})
unfolding check_allowed_paths check_extensions text_eq
validate_submission_contract u c = do
  reject_if (not (is_empty c.format) && not (text_eq c.format source_v2))
      (message "unknown artifact content format")
  reject_if
      (ltb_ℤ c.max_bytes (pos 1)
        || ltb_ℤ (pos 67108864) c.max_bytes
        || ltb_ℤ c.max_files (pos 1)
        || ltb_ℤ (pos 4096) c.max_files
        || is_empty c.license
        || is_empty c.allowed_paths
        || ltb 32 (length c.allowed_paths)
        || is_empty c.allowed_extensions)
      (message "invalid submission limits/license/paths")
  check_allowed_paths u c.allowed_paths
  check_extensions (text_eq c.format source_v2) c.allowed_extensions

unfoldable pub matches_prefix : Bytes → List Bytes → Bool
unfolding text_eq
matches_prefix name [] = false
matches_prefix name (p ∷ ps) =
    text_eq p (text "*")
    || text_eq p name
    || (has_suffix p (text "/") && has_prefix name p)
    || matches_prefix name ps

-- `path.Ext`: from the last `.` of the last component on.
unfoldable pub extension : Bytes → Bytes → Bytes
extension found [] = found
extension found (c ∷ cs) =
    extension (if c == b'/' then [] else if c == b'.' then c ∷ cs else found) cs

unfoldable pub allowed_file : Bytes → SubmissionContract → Bool
unfolding matches_prefix extension text_eq
allowed_file name c =
    matches_prefix name c.allowed_paths
    && is_in (map lower (extension [] name)) c.allowed_extensions

abbrev pub lfs_pointer : Bytes
lfs_pointer = text "version https://git-lfs.github.com/spec/v1"

-- `rejectActive`
unfoldable pub reject_active : Unicode → Bytes → Result (Unit {0})
unfolding text_eq
reject_active u content =
    let trimmed = u.trim_space content in
    let low = map lower (take 512 trimmed) in
    reject_if
      (has_prefix content (0x7f ∷ text "ELF")
        || has_prefix content (text "MZ")
        || has_prefix trimmed (text "#!")
        || has_prefix low (text "<svg")
        || has_prefix low (text "<!doctype html")
        || has_prefix low (text "<html")
        || has_prefix low (text "<script")
        || has_prefix content lfs_pointer)
      (message "active content or unresolved Git LFS pointer forbidden")
