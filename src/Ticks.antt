-- ===== src/Ticks.antt =====
-- pkg/protocol/scores.go: exact integer ticks.
mod Digits
pub mod RoundTrip
use science_ladder.Base.{
  ℕ, zero, suc, ◌+◌, ◌-◌, ◌*◌, ◌/◌, ◌%◌, Bool, true, false, ◌&&◌, ◌||◌, not, Option, none, some, [],
  ◌∷◌, ltb, leb, ◌==◌, if◌then◌else◌, Bytes, text, is_empty, text_eq, length, Result, ok, err,
  message,
}
use science_ladder.Base.Int.{ℤ, pos, negsuc, sub_ℕ}

abbrev pub is_digit : ℕ → Bool
is_digit c = leb b'0' c && leb c b'9'

unfoldable pub all_digits : Bytes → Bool
all_digits [] = true
all_digits (c ∷ cs) = is_digit c && all_digits cs

-- `(0|[1-9][0-9]*)`
unfoldable pub natural_match : Bytes → Bool
unfolding all_digits
natural_match [] = false
natural_match (c ∷ cs) = if c == b'0' then is_empty cs else is_digit c && all_digits cs

-- `ticksPattern`, `^-?(0|[1-9][0-9]*)$`
unfoldable pub ticks_match : Bytes → Bool
unfolding natural_match
ticks_match [] = false
ticks_match (c ∷ cs) = if c == b'-' then natural_match cs else natural_match (c ∷ cs)

unfoldable pub value : ℕ → Bytes → ℕ
value n [] = n
value n (c ∷ cs) = value (n * 10 + (c - b'0')) cs

-- Digits alone, at least one of them.
unfoldable pub unsigned : Bytes → Option ℕ
unfolding all_digits value
unsigned cs = if not (is_empty cs) && all_digits cs then some (value 0 cs) else none

abbrev pub signed : Bool → Option ℕ → Option ℤ
signed negative none = none
signed negative (some n) = some (if negative then sub_ℕ 0 n else pos n)

-- `new(big.Int).SetString(s, 10)`: an optional sign, then digits.
unfoldable pub set_string : Bytes → Option ℤ
unfolding unsigned
set_string [] = none
set_string (c ∷ cs) =
    if c == b'-'
    then signed true (unsigned cs)
    else if c == b'+'
    then signed false (unsigned cs)
    else signed false (unsigned (c ∷ cs))

abbrev pub or_error : Option ℤ → Result ℤ
or_error none = err (message "invalid ticks")
or_error (some v) = ok v

unfoldable pub parse_ticks : Bytes → Result ℤ
unfolding ticks_match text_eq set_string
parse_ticks s =
    if ltb 160 (length s) || not (ticks_match s) || text_eq s (text "-0")
    then err (message "invalid integer ticks")
    else or_error (set_string s)

-- The digits of `n` in front of `rest`. Every division takes one unit of fuel.
unfoldable pub digits : ℕ → ℕ → Bytes → Bytes
digits zero n rest = rest
digits (suc f) n rest =
    let more = digits f (n / 10) ((b'0' + n % 10) ∷ rest) in
    if ltb n 10 then (b'0' + n) ∷ rest else more

-- `(*big.Int).String()`
unfoldable pub to_string : ℤ → Bytes
unfolding digits
to_string (pos n) = digits (suc n) n []
to_string (negsuc n) = b'-' ∷ digits (suc (suc n)) (suc n) []
