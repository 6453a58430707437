-- ===== src/Evaluation/Assets.antt =====
-- pkg/protocol/evaluation.go: the immutable assets of an evaluation.
use science_ladder.Base.{
  Bool, ◌&&◌, ◌||◌, not, List, [], ◌∷◌, Bytes, text, is_empty, is_in, text_eq, Result, ok, message,
  ◌>>◌, reject_if,
}
use science_ladder.Base.Int.{ℤ, pos, ltb_ℤ, eqb_ℤ}
use science_ladder.Digests.{valid_digest}
use science_ladder.Evaluation.{is_identifier}

pub record EvaluationAsset : Type 0 where
  pub domain : Bytes
  pub name : Bytes
  pub digest : Bytes
  pub size : ℤ
  pub visibility : Bytes
  pub purpose : Bytes

-- `asset == available`
unfoldable pub same_asset : EvaluationAsset → EvaluationAsset → Bool
unfolding text_eq
same_asset a b =
    text_eq a.domain b.domain
    && text_eq a.name b.name
    && text_eq a.digest b.digest
    && eqb_ℤ a.size b.size
    && text_eq a.visibility b.visibility
    && text_eq a.purpose b.purpose

abbrev pub is_public : Bytes → Bool
is_public visibility = text_eq visibility (text "public")

abbrev pub is_purpose : Bytes → Bool
is_purpose p =
    text_eq p (text "toolchain")
    || text_eq p (text "weights")
    || text_eq p (text "dataset")
    || text_eq p (text "proof")

-- One asset, apart from its name.
unfoldable pub check_asset : List Bytes → EvaluationAsset → Result (Unit {0})
unfolding text_eq
check_asset features a = do
  reject_if
      (not (
        is_empty a.domain
        || text_eq a.domain (text "candidate")
        || text_eq a.domain (text "checker")))
      (message "unknown asset execution domain")
  reject_if
      (text_eq a.purpose (text "toolchain")
        && (not (text_eq a.domain (text "candidate")) || not (is_public a.visibility)))
      (message "toolchain assets must be isolated candidate-only public inputs")
  reject_if (text_eq a.domain (text "checker") && not (text_eq a.purpose (text "proof")))
      (message "executable checker assets require reviewed proof-tool purpose")
  reject_if (not (is_empty a.domain) && not (is_in (text "asset-domains") features))
      (message "asset domains require an enrolled capability")
  reject_if (not (is_public a.visibility || text_eq a.visibility (text "hidden")))
      (message "asset disclosure policy required")
  reject_if (not (is_purpose a.purpose)) (message "unknown asset purpose")

-- The loop over the assets.
unfoldable pub check_assets : List Bytes → List Bytes → List EvaluationAsset → Result (Unit {0})
unfolding check_asset is_identifier valid_digest text_eq
check_assets features names [] = ok tt
check_assets features names (a ∷ rest) = do
  reject_if
      (not (is_identifier a.name)
        || is_in a.name names
        || not (valid_digest a.digest)
        || ltb_ℤ a.size (pos 1)
        || ltb_ℤ (pos 1099511627776) a.size)
      (message "invalid immutable asset binding")
  check_asset features a
  check_assets features (a.name ∷ names) rest
