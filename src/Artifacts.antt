-- ===== src/Artifacts.antt =====
-- pkg/protocol/artifacts.go: artifact paths, the files that a contract allows and the artifact tree.
pub mod Paths
pub mod Contract
pub mod Tree
use science_ladder.Base.{
  ℕ, ◌+◌, ◌/◌, Bool, false, ◌&&◌, ◌||◌, not, List, [], ◌∷◌, ◌++◌, map, ltb, leb, ◌==◌,
  if◌then◌else◌, Bytes, text, is_empty, has_prefix, has_suffix, has_char, text_eq, length, Result,
  message, ◌>>=◌, ◌>>◌, reject_if,
}

-- What the code takes from Unicode libraries: `utf8.ValidString`, `norm.NFC.IsNormalString`, the
-- runes that `range` yields, `strings.TrimSpace`, and `cases.Fold`.
pub record Unicode : Type 0 where
  pub valid_utf8 : Bytes → Bool
  pub is_nfc : Bytes → Bool
  pub runes : Bytes → List ℕ
  pub trim_space : Bytes → Bytes
  pub fold : Bytes → Bytes

abbrev pub add_head : ℕ → List Bytes → List Bytes
add_head c [] = (c ∷ []) ∷ []
add_head c (w ∷ ws) = (c ∷ w) ∷ ws

-- `strings.Split(value, "/")`
unfoldable pub split : Bytes → List Bytes
split [] = [] ∷ []
split (c ∷ cs) = let rest = split cs in if c == b'/' then [] ∷ rest else add_head c rest

unfoldable pub join : List Bytes → Bytes
join [] = []
join (w ∷ []) = w
join (w ∷ v ∷ ws) = w ++ b'/' ∷ join (v ∷ ws)

abbrev pub dot : Bytes
dot = text "."

abbrev pub dot_dot : Bytes
dot_dot = text ".."

abbrev pub is_rooted : Bytes → Bool
is_rooted [] = false
is_rooted (c ∷ cs) = c == b'/'

-- What `..` does to the components that are kept so far, the last one first.
abbrev pub go_up : Bool → List Bytes → List Bytes
go_up rooted [] = if rooted then [] else dot_dot ∷ []
go_up rooted (w ∷ ws) = if text_eq w dot_dot then dot_dot ∷ w ∷ ws else ws

unfoldable pub push_part : Bool → Bytes → List Bytes → List Bytes
unfolding text_eq
push_part rooted part kept =
    if is_empty part || text_eq part dot
    then kept
    else if text_eq part dot_dot
    then go_up rooted kept
    else part ∷ kept

-- The kept components, in their order.
unfoldable pub keep_parts : Bool → List Bytes → List Bytes → List Bytes
unfolding push_part
keep_parts rooted kept [] = kept
keep_parts rooted kept (p ∷ ps) = keep_parts rooted (push_part rooted p kept) ps

unfoldable pub reverse_onto : List Bytes → List Bytes → List Bytes
reverse_onto acc [] = acc
reverse_onto acc (w ∷ ws) = reverse_onto (w ∷ acc) ws

abbrev pub or_dot : Bytes → Bytes
or_dot [] = dot
or_dot (c ∷ cs) = c ∷ cs

-- `path.Clean`
unfoldable pub clean : Bytes → Bytes
unfolding split join keep_parts reverse_onto
clean s =
    let parts = join (reverse_onto [] (keep_parts (is_rooted s) [] (split s))) in
    or_dot (if is_rooted s then b'/' ∷ parts else parts)

abbrev pub is_control : ℕ → Bool
is_control r = ltb r 32 || (leb 127 r && leb r 159)

unfoldable pub has_bad_rune : List ℕ → Bool
has_bad_rune [] = false
has_bad_rune (r ∷ rs) = is_control r || r == b':' || r == 0xfffd || has_bad_rune rs

abbrev pub lower : ℕ → ℕ
lower c = if leb b'A' c && leb c b'Z' then c + 32 else c

-- `strings.EqualFold(part, ".git")`
abbrev pub is_git : Bytes → Bool
is_git part = text_eq (map lower part) (text ".git")

unfoldable pub has_reserved_part : List Bytes → Bool
unfolding text_eq
has_reserved_part [] = false
has_reserved_part (p ∷ ps) =
    is_git p || has_suffix p (text ".") || has_suffix p (text " ") || has_reserved_part ps

unfoldable pub validate_path : Unicode → Bytes → Result (Unit {0})
unfolding clean has_bad_rune has_reserved_part split
validate_path u s = do
  reject_if
      (is_empty s
        || ltb 240 (length s)
        || not (u.valid_utf8 s)
        || not (u.is_nfc s)
        || has_char b'\\' s
        || has_prefix s (text "/")
        || has_suffix s (text "/")
        || not (text_eq (clean s) s)
        || text_eq s dot
        || text_eq s dot_dot
        || has_prefix s (text "../"))
      (message "unsafe artifact path")
  reject_if (has_bad_rune (u.runes s)) (message "unsafe path character")
  reject_if (has_reserved_part (split s)) (message "reserved path component")
