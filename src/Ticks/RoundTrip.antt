-- ===== src/Ticks/RoundTrip.antt =====
-- Printing and parsing of ticks undo each other.
use science_ladder.Base.{
  ℕ, zero, suc, ◌-◌, ◌≤◌, ◌<◌, ◌≡◌, refl, ap, ◌∙◌, true, false, [], ◌∷◌, arith, ltb, ◌==◌,
  Bool-cases, inl, inr, ==_iff, Bytes, text, text_eq, length, ok, some,
}
use science_ladder.Base.Int.{ℤ, pos, negsuc, sub_ℕ}
use science_ladder.Ticks.Digits.{print, natural_match-print, value-print, print-value, le-value}
use science_ladder.Ticks.{
  natural_match, ticks_match, value, unsigned, set_string, parse_ticks, to_string, or_error,
}

unsigned_of_match : (cs : Bytes) → natural_match cs ≡ true → unsigned cs ≡ some (value 0 cs)
unfolding natural_match unsigned
unsigned_of_match [] h = cc
unsigned_of_match (c ∷ []) h = ground arith
unsigned_of_match (c ∷ d ∷ cs) h = ground arith

-- A natural number's text does not begin with a sign.
set_string_of_match :
    (cs : Bytes) → natural_match cs ≡ true → set_string cs ≡ some (pos (value 0 cs))
unfolding natural_match set_string
set_string_of_match [] h = cc
set_string_of_match (c ∷ []) h = ground arith
set_string_of_match (c ∷ d ∷ cs) h = ground arith

set_string_minus :
    (cs : Bytes) → natural_match cs ≡ true → set_string (b'-' ∷ cs) ≡ some (sub_ℕ 0 (value 0 cs))
unfolding set_string
set_string_minus cs h = rw (unsigned_of_match cs h)

to_string-pos : (n : ℕ) → to_string (pos n) ≡ print n
unfolding to_string print
to_string-pos n = refl

to_string-negsuc : (n : ℕ) → to_string (negsuc n) ≡ b'-' ∷ print (suc n)
unfolding to_string print
to_string-negsuc n = refl

-- Every integer is read back from its text.
pub set_string-to_string : (z : ℤ) → set_string (to_string z) ≡ some z
set_string-to_string (pos n) =
    rw (to_string-pos, set_string_of_match (print n) (natural_match-print n), value-print)
set_string-to_string (negsuc n) =
    rw
      (
        to_string-negsuc,
        set_string_minus (print (suc n)) (natural_match-print (suc n)),
        value-print,
      )
      (ground arith)

-- The two forms of accepted ticks.
pub data IsTicks : Bytes → Type 0 where
  plain : (cs : Bytes) → natural_match cs ≡ true → IsTicks cs
  minus : (cs : Bytes) → natural_match cs ≡ true → 0 < value 0 cs → IsTicks (b'-' ∷ cs)

IsTicks-to_string : (z : ℤ) → IsTicks (to_string z)
IsTicks-to_string (pos n) = rw to_string-pos (plain (print n) (natural_match-print n))
IsTicks-to_string (negsuc n) =
    rw to_string-negsuc
      (minus (print (suc n)) (natural_match-print (suc n)) (rw value-print (omega arith)))

ticks_match_plain : (cs : Bytes) → natural_match cs ≡ true → ticks_match cs ≡ true
unfolding ticks_match natural_match
ticks_match_plain [] h = cc
ticks_match_plain (c ∷ cs) h = ground arith

not_minus_zero_plain : (cs : Bytes) → natural_match cs ≡ true → text_eq cs (text "-0") ≡ false
unfolding natural_match text_eq
not_minus_zero_plain [] h = cc
not_minus_zero_plain (c ∷ cs) h = ground arith

not_minus_zero : (cs : Bytes) → 0 < value 0 cs → text_eq (b'-' ∷ cs) (text "-0") ≡ false
unfolding text_eq value
not_minus_zero [] p = absurd (omega arith)
not_minus_zero (c ∷ []) p = ground arith
not_minus_zero (c ∷ d ∷ cs) p = ground arith

parse_ticks_accepts :
    (s : Bytes)
    → length s ≤ 160
    → ticks_match s ≡ true
    → text_eq s (text "-0") ≡ false
    → parse_ticks s ≡ or_error (set_string s)
unfolding parse_ticks
parse_ticks_accepts s h m z =
    let short : ltb 160 (length s) ≡ false = ground arith in rw (short, m, z)

-- Ticks of the right form and length are accepted, at the value that `big.Int` reads.
parse_ticks_of_IsTicks :
    {s : Bytes} → IsTicks s → length s ≤ 160 → parse_ticks s ≡ or_error (set_string s)
parse_ticks_of_IsTicks (plain cs m) h =
    parse_ticks_accepts cs h (ticks_match_plain cs m) (not_minus_zero_plain cs m)
parse_ticks_of_IsTicks (minus cs m p) h =
    parse_ticks_accepts (b'-' ∷ cs) h (unfold ticks_match in m) (not_minus_zero cs p)

-- An integer that is printed in at most 160 bytes is read back by the strict parser.
pub parse_ticks-to_string : (z : ℤ) → length (to_string z) ≤ 160 → parse_ticks (to_string z) ≡ ok z
parse_ticks-to_string z h =
    parse_ticks_of_IsTicks (IsTicks-to_string z) h ∙ ap or_error (set_string-to_string z)

value_positive :
    (cs : Bytes)
    → natural_match cs ≡ true
    → text_eq (b'-' ∷ cs) (text "-0") ≡ false
    → 0 < value 0 cs
unfolding natural_match text_eq value
value_positive [] m h = cc
value_positive (c ∷ []) m h = ground arith
value_positive (c ∷ d ∷ cs) m h = ground (arith, le-value (c - 48) (d ∷ cs))

-- What the strict parser accepts.
parse_ticks_parts :
    (s : Bytes) {z : ℤ}
    → parse_ticks s ≡ ok z
    → (ticks_match s ≡ true) × (text_eq s (text "-0") ≡ false) × (set_string s ≡ some z)
unfolding parse_ticks
parse_ticks_parts s h = ground arith

IsTicks-of_match : (s : Bytes) → ticks_match s ≡ true → text_eq s (text "-0") ≡ false → IsTicks s
unfolding ticks_match
IsTicks-of_match [] m n = cc
IsTicks-of_match (c ∷ cs) m n = elim (Bool-cases (c == b'-')) [
  | inl e ↦
      let sign : c ≡ b'-' = (==_iff c b'-').0 e in
      let body : natural_match cs ≡ true = rw e at m in
      rw sign (minus cs body (value_positive cs body (rw sign at n)))
  | inr e ↦ plain (c ∷ cs) (rw e at m)
]

pub parse_ticks-IsTicks : (s : Bytes) {z : ℤ} → parse_ticks s ≡ ok z → IsTicks s
parse_ticks-IsTicks s h = let (m, n, v) = parse_ticks_parts s h in IsTicks-of_match s m n

to_string_minus : (n : ℕ) → 0 < n → to_string (sub_ℕ 0 n) ≡ b'-' ∷ print n
to_string_minus zero h = absurd (omega arith)
to_string_minus (suc n) h =
    let e : sub_ℕ 0 (suc n) ≡ negsuc n = ground arith in rw e (to_string-negsuc n)

to_string_of_IsTicks : {s : Bytes} {z : ℤ} → IsTicks s → set_string s ≡ some z → to_string z ≡ s
to_string_of_IsTicks {z} (plain cs m) h =
    let same : z ≡ pos (value 0 cs) = cc (set_string_of_match cs m) in
    rw (same, to_string-pos) (print-value cs m)
to_string_of_IsTicks {z} (minus cs m p) h =
    let same : z ≡ sub_ℕ 0 (value 0 cs) = cc (set_string_minus cs m) in
    rw (same, to_string_minus (value 0 cs) p) (ap (λ (t : Bytes). b'-' ∷ t) (print-value cs m))

-- A text that the strict parser reads as an integer is the text that the integer is printed as: no
-- integer has two spellings.
pub to_string-parse_ticks : (s : Bytes) {z : ℤ} → parse_ticks s ≡ ok z → to_string z ≡ s
to_string-parse_ticks s h = to_string_of_IsTicks (parse_ticks-IsTicks s h) (parse_ticks_parts s h).2

-- What the strict parser accepts, `SetString` reads alike.
pub parse_ticks-set_string : (s : Bytes) {z : ℤ} → parse_ticks s ≡ ok z → set_string s ≡ some z
parse_ticks-set_string s h = (parse_ticks_parts s h).2
