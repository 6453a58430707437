-- ===== src/Ticks/Digits.antt =====
-- The decimal digits of a number: printing and reading undo each other.
use mathlib.Core.List.{append-nil}
use science_ladder.Base.{
  ℕ, zero, suc, ◌+◌, ◌-◌, ◌*◌, ◌≤◌, ◌<◌, ◌/◌, ◌%◌, ◌≡◌, refl, ap, ◌∙◌, true, false, [], ◌∷◌, ◌++◌,
  arith, ltb, ◌==◌, Bool-cases, inl, inr, Bytes,
}
use science_ladder.Ticks.{all_digits, natural_match, value, digits}

-- More fuel than the number changes nothing.
digits_fuel : (f g n : ℕ) (rest : Bytes) → n < f → n < g → digits f n rest ≡ digits g n rest
unfolding digits
digits_fuel zero g n rest h k = absurd (omega arith)
digits_fuel (suc f) zero n rest h k = absurd (omega arith)
digits_fuel (suc f) (suc g) n rest h k =
    ground (arith, digits_fuel f g (n / 10) ((b'0' + n % 10) ∷ rest))

value-digits : (f n : ℕ) (rest : Bytes) → n < f → value 0 (digits f n rest) ≡ value n rest
unfolding digits value
value-digits zero n rest h = absurd (omega arith)
value-digits (suc f) n rest h = elim (Bool-cases (ltb n 10)) [
  | inl small ↦ rw small (ap (λ (k : ℕ). value k rest) (omega arith))
  | inr large ↦ rw large (
      value-digits f (n / 10) ((b'0' + n % 10) ∷ rest) (ground arith)
      ∙ ap (λ (k : ℕ). value k rest) (omega arith))
]

all_digits-digits :
    (f n : ℕ) (rest : Bytes) → n < f → all_digits rest ≡ true → all_digits (digits f n rest) ≡ true
unfolding digits all_digits
all_digits-digits zero n rest h d = absurd (omega arith)
all_digits-digits (suc f) n rest h d =
    ground (arith, all_digits-digits f (n / 10) ((b'0' + n % 10) ∷ rest))

-- Digits are printed with no leading zero.
natural_match-digits :
    (f n : ℕ) (rest : Bytes)
    → n < f
    → 0 < n
    → all_digits rest ≡ true
    → natural_match (digits f n rest) ≡ true
unfolding digits natural_match
natural_match-digits zero n rest h p d = absurd (omega arith)
natural_match-digits (suc f) n rest h p d =
    ground (arith, natural_match-digits f (n / 10) ((b'0' + n % 10) ∷ rest))

-- The digits of a number, with fuel enough.
unfoldable pub print : ℕ → Bytes
print n = digits (suc n) n []

pub natural_match-print : (n : ℕ) → natural_match (print n) ≡ true
unfolding print digits natural_match
natural_match-print zero = refl
natural_match-print (suc n) =
    natural_match-digits (suc (suc n)) (suc n) [] (omega arith) (omega arith) refl

pub value-print : (n : ℕ) → value 0 (print n) ≡ n
unfolding print value
value-print n = value-digits (suc n) n [] (omega arith)

pub le-value : (n : ℕ) (cs : Bytes) → n ≤ value n cs
unfolding value
le-value n [] = omega arith
le-value n (c ∷ cs) = omega (arith, le-value (n * 10 + (c - 48)) cs)

-- One digit is put back.
digits_step :
    (f n d : ℕ) (rest : Bytes)
    → 0 < n
    → d < 10
    → n * 10 + d < f
    → digits f (n * 10 + d) rest ≡ digits f n ((b'0' + d) ∷ rest)
unfolding digits
digits_step zero n d rest p q h = absurd (omega arith)
digits_step (suc f) n d rest p q h =
    let quotient : (n * 10 + d) / 10 ≡ n = omega arith in
    let remainder : (n * 10 + d) % 10 ≡ d = omega arith in
    let large : ltb (n * 10 + d) 10 ≡ false = ground arith in
    rw (large, quotient, remainder)
      (digits_fuel f (suc f) n ((b'0' + d) ∷ rest) (omega arith) (omega arith))

-- What is printed from a value and the digits that follow is what was read.
digits-value :
    (f n : ℕ) (cs rest : Bytes)
    → 0 < n
    → value n cs < f
    → all_digits cs ≡ true
    → digits f (value n cs) rest ≡ digits f n (cs ++ rest)
unfolding all_digits value
digits-value f n [] rest p h d = refl
digits-value f n (c ∷ cs) rest p h d =
    let low : 48 ≤ c = ground arith in
    let high : c < 58 = ground arith in
    let same : b'0' + (c - 48) ≡ c = omega arith in
    digits-value f (n * 10 + (c - 48)) cs rest (omega arith) h (ground arith)
    ∙ digits_step f n (c - 48) (cs ++ rest) p (omega arith)
        (omega (arith, le-value (n * 10 + (c - 48)) cs))
    ∙ ap (λ (k : ℕ). digits f n (k ∷ (cs ++ rest))) same

print-value_zero :
    (c : ℕ) (cs : Bytes)
    → natural_match (c ∷ cs) ≡ true
    → (c == b'0') ≡ true
    → print (value 0 (c ∷ cs)) ≡ c ∷ cs
unfolding natural_match print digits value
print-value_zero c [] h e = ground arith
print-value_zero c (d ∷ cs) h e = ground arith

print_small : (f d : ℕ) (rest : Bytes) → d < 10 → digits (suc f) d rest ≡ (b'0' + d) ∷ rest
unfolding digits
print_small f d rest h = ground arith

print-value_positive :
    (d : ℕ) (cs : Bytes)
    → 0 < d
    → d < 10
    → all_digits cs ≡ true
    → print (value d cs) ≡ (b'0' + d) ∷ cs
unfolding print
print-value_positive d cs p q h =
    digits-value (suc (value d cs)) d cs [] p (omega arith) h
    ∙ print_small (value d cs) d (cs ++ []) q
    ∙ ap (λ (t : Bytes). (b'0' + d) ∷ t) (append-nil cs)

pub print-value : (cs : Bytes) → natural_match cs ≡ true → print (value 0 cs) ≡ cs
unfolding natural_match
print-value [] h = cc
print-value (c ∷ cs) h = elim (Bool-cases (c == b'0')) [
  | inl e ↦ print-value_zero c cs h e
  | inr e ↦
      let leading : value 0 (c ∷ cs) ≡ value (c - 48) cs =
        unfold value in ap (λ (k : ℕ). value k cs) (omega arith) in
      let same : b'0' + (c - 48) ≡ c = ground arith in
      rw leading (
        print-value_positive (c - 48) cs (ground arith) (ground arith) (ground arith)
        ∙ ap (λ (k : ℕ). k ∷ cs) same)
]
