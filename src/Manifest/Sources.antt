-- ===== src/Manifest/Sources.antt =====
-- pkg/protocol/validate.go: `validateSources`. `url.Parse` and `strings.TrimSpace` are parameters.
use science_ladder.Base.{
  Bool, false, ◌&&◌, ◌||◌, not, Option, none, some, List, [], ◌∷◌, ltb, Bytes, text, is_empty,
  text_eq, length, Result, ok, message, ◌>>◌, reject_if,
}
use science_ladder.Manifest.{Source}

pub record Url : Type 0 where
  pub scheme : Bytes
  pub host : Bytes
  pub has_user : Bool

abbrev pub is_https : Option Url → Bool
is_https none = false
is_https (some u) = text_eq u.scheme (text "https") && not (is_empty u.host) && not u.has_user

module _ (parse_url : Bytes → Option Url) (trim_space : Bytes → Bytes) where
  unfoldable pub check_sources : List Source → Result (Unit {0})
  unfolding text_eq
  check_sources [] = ok tt
  check_sources (s ∷ ss) = do
    reject_if (not (is_https (parse_url s.url))) (message "source requires an HTTPS URL")
    reject_if
        (is_empty (trim_space s.title)
          || is_empty (trim_space s.evidence)
          || is_empty (trim_space s.location))
        (message "source title, evidence and exact location required")
    check_sources ss

  unfoldable pub validate_sources : List Source → Result (Unit {0})
  unfolding check_sources
  validate_sources sources = do
    reject_if (is_empty sources || ltb 30 (length sources))
        (message "one to thirty evidence sources required")
    check_sources sources
