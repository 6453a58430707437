-- ===== src/Audit/Merkle.antt =====
-- internal/audit/checkpoint.go: digests, sequence numbers and the Merkle root.
pub mod Shape
use science_ladder.Base.{
  has_prefix, ℕ, zero, suc, ◌+◌, ◌-◌, ◌*◌, ◌/◌, ◌%◌, ◌^◌, Bool, true, false, ◌&&◌, ◌||◌, not,
  Option, none, some, List, [], ◌∷◌, ◌++◌, ltb, leb, ◌==◌, if◌then◌else◌, Bytes, text, is_empty,
  text_eq, length, Result, ok, err, message, ◌>>=◌, ◌>>◌, reject_if, take, drop,
}
use science_ladder.Base.Int.{ℤ, pos}
use science_ladder.Ticks.{set_string, to_string}
use science_ladder.Signing.{Crypto}

abbrev pub genesis : Bytes
genesis = text "genesis"

abbrev pub max_events : ℕ
max_events = 10000

-- `hex.EncodeToString`
abbrev pub hex_digit : ℕ → ℕ
hex_digit d = if ltb d 10 then b'0' + d else b'a' + (d - 10)

unfoldable pub hex : Bytes → Bytes
hex [] = []
hex (b ∷ bs) = hex_digit (b / 16 % 16) ∷ hex_digit (b % 16) ∷ hex bs

-- `hex.DecodeString`, which takes capitals too.
abbrev pub hex_value : ℕ → Option ℕ
hex_value c =
    if leb b'0' c && leb c b'9'
    then some (c - b'0')
    else if leb b'a' c && leb c b'f'
    then some (c - b'a' + 10)
    else if leb b'A' c && leb c b'F'
    then some (c - b'A' + 10)
    else none

abbrev pub hex_pair : Option ℕ → Option ℕ → Option Bytes → Option Bytes
hex_pair (some h) (some l) (some bs) = some ((h * 16 + l) ∷ bs)
hex_pair _ _ _ = none

unfoldable pub unhex : Bytes → Option Bytes
unhex [] = some []
unhex (_ ∷ []) = none
unhex (h ∷ l ∷ cs) = hex_pair (hex_value h) (hex_value l) (unhex cs)

abbrev pub is_lower : ℕ → Bool
is_lower c = not (leb b'A' c && leb c b'Z')

-- `strings.ToLower(s) == s`, on ASCII.
unfoldable pub all_lower : Bytes → Bool
all_lower [] = true
all_lower (c ∷ cs) = is_lower c && all_lower cs

abbrev pub is_thirty_two : Option Bytes → Bool
is_thirty_two none = false
is_thirty_two (some b) = length b == 32

unfoldable pub valid_digest : Bytes → Bool → Bool
unfolding unhex all_lower
valid_digest s allow_genesis =
    if allow_genesis && text_eq s genesis
    then true
    else if not (length s == 71) || not (has_prefix s (text "sha256:"))
    then false
    else is_thirty_two (unhex (drop 7 s)) && all_lower s

unfoldable pub hash : Crypto → Bytes → Bytes
unfolding hex
hash c bytes = text "sha256:" ++ hex (c.sha256 bytes)

abbrev pub has_line_break : Bytes → Bool
has_line_break [] = false
has_line_break (c ∷ cs) = c == 13 || c == 10 || has_line_break cs

unfoldable pub event_digest : Crypto → Bytes → Bytes → Bytes → Result Bytes
unfolding valid_digest hash
event_digest c previous kind payload = do
  reject_if
      (not (valid_digest previous true)
        || is_empty kind
        || ltb 128 (length kind)
        || has_line_break kind)
      (message "invalid audit chain fields")
  b ← c.canonical_json payload
  ok (hash c (previous ++ 10 ∷ kind ++ 10 ∷ b))

-- `strconv.ParseInt(s, 10, 64)`, without the negative numbers, which `sequence` refuses.
abbrev pub parse_int : Bytes → Option ℤ → Result ℕ
parse_int s (some (pos n)) =
    if ltb n (2 ^ 63) && text_eq (to_string (pos n)) s
    then ok n
    else err (message "sequence must be a canonical nonnegative integer string")
parse_int s _ = err (message "sequence must be a canonical nonnegative integer string")

unfoldable pub sequence : Bytes → Result ℕ
sequence s = parse_int s (set_string s)

-- The largest power of two below n, by doubling k. Every doubling takes one unit of fuel.
unfoldable pub double_below : ℕ → ℕ → ℕ → ℕ
double_below zero k n = k
double_below (suc f) k n = if ltb (k * 2) n then double_below f (k * 2) n else k

unfoldable pub split_point : ℕ → ℕ
unfolding double_below
split_point n = double_below n 1 n

abbrev pub node_hash : Crypto → Bytes → Bytes → Bytes
node_hash c left right = c.sha256 ((1 ∷ left) ++ right)

abbrev pub join : Crypto → Option Bytes → Option Bytes → Option Bytes
join c (some left) (some right) = some (node_hash c left right)
join c _ _ = none

-- `tree`, where a tree of two or more leaves takes one unit of fuel for a level.
unfoldable pub tree : Crypto → ℕ → List Bytes → Option Bytes
unfolding split_point
tree c fuel [] = some (c.sha256 [])
tree c fuel (leaf ∷ []) = some leaf
tree c zero (a ∷ b ∷ nodes) = none
tree c (suc fuel) (a ∷ b ∷ nodes) =
    let all = a ∷ b ∷ nodes in
    let k = split_point (length all) in join c (tree c fuel (take k all)) (tree c fuel (drop k all))

abbrev pub leaf_hash : Crypto → Option Bytes → Bytes
leaf_hash c none = c.sha256 (0 ∷ [])
leaf_hash c (some b) = c.sha256 (0 ∷ b)

unfoldable pub leaves : Crypto → List Bytes → Result (List Bytes)
unfolding valid_digest unhex
leaves c [] = ok []
leaves c (d ∷ ds) = do
  reject_if (not (valid_digest d false)) (message "invalid Merkle leaf digest")
  rest ← leaves c ds
  ok (leaf_hash c (unhex (drop 7 d)) ∷ rest)

abbrev pub root_text : Option Bytes → Option Bytes
root_text none = none
root_text (some r) = some (text "sha256:" ++ hex r)

-- `none` means that the fuel ran out.
unfoldable pub merkle_root : Crypto → List Bytes → Result (Option Bytes)
unfolding leaves tree hex
merkle_root c digests = do
  reject_if (ltb max_events (length digests)) (message "checkpoint event bound exceeded")
  nodes ← leaves c digests
  ok (root_text (tree c (length nodes) nodes))
