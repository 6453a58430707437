-- ===== src/Digests.antt =====
-- pkg/protocol/canonical.go: `ValidDigest`.
use science_ladder.Base.{
  Bool, false, ◌&&◌, ◌||◌, not, ◌==◌, if◌then◌else◌, Bytes, text, is_some, text_eq, length, take,
  drop,
}
use science_ladder.Audit.Merkle.{unhex, all_lower}

unfoldable pub valid_digest : Bytes → Bool
unfolding unhex all_lower text_eq
valid_digest s =
    if not (length s == 71) || not (text_eq (take 7 s) (text "sha256:"))
    then false
    else is_some (unhex (drop 7 s)) && all_lower s
