-- ===== src/Artifacts/Tree.antt =====
-- pkg/protocol/artifacts.go: `treeFor`. The files are given in the order in which a Go map hands
-- them out; a name stands in the map once.
use science_ladder.Base.{
  ℕ, ◌+◌, Bool, true, false, ◌&&◌, ◌||◌, not, Option, none, some, List, [], ◌∷◌, ◌++◌, map, ltb,
  ◌==◌, if◌then◌else◌, Bytes, text, is_empty, has_prefix, is_in, text_eq, length, Result, ok,
  message, ◌>>=◌, ◌>>◌, reject_if,
}
use science_ladder.Base.Int.{pos, ltb_ℤ}
use science_ladder.Signing.{Crypto, lookup}
use science_ladder.Audit.Merkle.{hash}
use science_ladder.Artifacts.{Unicode, validate_path}
use science_ladder.Artifacts.Contract.{
  SubmissionContract, validate_submission_contract, allowed_file, reject_active, source_v2,
  lfs_pointer,
}

pub record ArtifactEntry : Type 0 where
  pub path : Bytes
  pub kind : Bytes  -- type
  pub mode : Bytes
  pub size : ℕ
  pub digest : Bytes

pub record ArtifactTree : Type 0 where
  pub kind : Bytes
  pub version : ℕ
  pub entries : List ArtifactEntry

-- A comparison of byte strings: a ≤ b.
unfoldable pub text_le : Bytes → Bytes → Bool
text_le [] b = true
text_le (x ∷ a) [] = false
text_le (x ∷ a) (y ∷ b) = ltb x y || (x == y && text_le a b)

unfoldable pub insert_name : Bytes → List Bytes → List Bytes
unfolding text_le
insert_name a [] = a ∷ []
insert_name a (b ∷ bs) = let rest = insert_name a bs in if text_le a b then a ∷ b ∷ bs else b ∷ rest

-- `sort.Strings`
unfoldable pub sort_names : List Bytes → List Bytes
unfolding insert_name
sort_names [] = []
sort_names (a ∷ rest) = insert_name a (sort_names rest)

abbrev pub check_content : Unicode → SubmissionContract → Bytes → Result (Unit {0})
check_content u c content =
    if text_eq c.format source_v2
    then reject_if (has_prefix content lfs_pointer) (message "unresolved Git LFS pointer")
    else reject_active u content

-- The loop over the files: the names, in the order of the map.
unfoldable pub check_files :
    Unicode → SubmissionContract → List Bytes → ℕ → List (Bytes × Bytes) → Result (List Bytes)
unfolding validate_path allowed_file reject_active text_eq
check_files u c seen total [] = ok []
check_files u c seen total ((name, content) ∷ files) = do
  validate_path u name
  reject_if (is_in (u.fold name) seen) (message "case-colliding artifact paths")
  reject_if (not (allowed_file name c)) (message "file outside submission contract")
  reject_if (ltb_ℤ c.max_bytes (pos (total + length content)))
      (message "artifact exceeds expanded limit")
  check_content u c content
  names ← check_files u c (u.fold name ∷ seen) (total + length content) files
  ok (name ∷ names)

abbrev pub content_of : Option Bytes → Bytes
content_of none = []
content_of (some content) = content

abbrev pub entry_of : Crypto → List (Bytes × Bytes) → Bytes → ArtifactEntry
entry_of c files name =
    let content = content_of (lookup name files) in
    record {
      path = name;
      kind = text "file";
      mode = text "0644";
      size = length content;
      digest = hash c content;
    }

abbrev pub tree_of : List ArtifactEntry → ArtifactTree
tree_of entries = record { kind = text "ScienceLadderArtifactTree"; version = 1; entries = entries }

-- `json.Marshal` of a tree is a parameter.
unfoldable pub tree_for :
    Crypto
    → Unicode
    → (ArtifactTree → Bytes)
    → List (Bytes × Bytes)
    → SubmissionContract
    → Result (ArtifactTree × Bytes)
unfolding validate_submission_contract check_files sort_names hash lookup
tree_for crypto u marshal files c = do
  validate_submission_contract u c
  reject_if (is_empty files || ltb_ℤ c.max_files (pos (length files)))
      (message "artifact file count outside bounds")
  names ← check_files u c [] 0 files
  let tree = tree_of (map (entry_of crypto files) (sort_names names))
  canonical ← crypto.canonical_json (marshal tree)
  ok (tree, hash crypto (text "science-ladder-artifact-v1" ++ 0 ∷ canonical))
