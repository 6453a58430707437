-- ===== src/Audit/Merkle/Shape.antt =====
-- The shape of the Merkle tree, and what a sequence number is.
use science_ladder.Base.{
  ℕ, zero, suc, ◌+◌, ◌-◌, ◌*◌, ◌^◌, ◌≤◌, ◌<◌, ◌≡◌, ◌≢◌, inl, inr, refl, Option, none, some, List,
  [], ◌∷◌, arith, ltb, Bool-cases, Bytes, text_eq→eq, length, ok, take, drop, subst, Result-cases,
}
use science_ladder.Base.Int.{ℤ, pos, negsuc}
use science_ladder.Ticks.{set_string, to_string}
use science_ladder.Signing.{Crypto}
use science_ladder.Audit.Merkle.{
  double_below, split_point, tree, join, leaves, merkle_root, root_text, sequence, parse_int,
}

pub data IsPower : ℕ → Type 0 where
  one : IsPower 1
  twice : {k : ℕ} → IsPower k → IsPower (k * 2)

double_below-IsPower : (f k n : ℕ) → IsPower k → IsPower (double_below f k n)
unfolding double_below
double_below-IsPower zero k n p = p
double_below-IsPower (suc f) k n p = elim (Bool-cases (ltb (k * 2) n)) [
  | inl h ↦ rw h (double_below-IsPower f (k * 2) n (twice p))
  | inr h ↦ rw h p
]

double_below-lt : (f k n : ℕ) → 0 < k → k < n → double_below f k n < n
unfolding double_below
double_below-lt zero k n p h = h
double_below-lt (suc f) k n p h = ground (arith, double_below-lt f (k * 2) n)

double_below-pos : (f k n : ℕ) → 0 < k → 0 < double_below f k n
unfolding double_below
double_below-pos zero k n p = p
double_below-pos (suc f) k n p = ground (arith, double_below-pos f (k * 2) n)

-- k grows by at least one with every unit of fuel.
double_below-enough : (f k n : ℕ) → 0 < k → n ≤ k + f → n ≤ double_below f k n * 2
unfolding double_below
double_below-enough zero k n p h = omega arith
double_below-enough (suc f) k n p h = ground (arith, double_below-enough f (k * 2) n)

-- A list of two or more leaves is split after a power of two that is below its length and at least
-- half of it: the largest such power.
pub split_point_lem :
    (n : ℕ)
    → 2 ≤ n
    → IsPower (split_point n) × (0 < split_point n) × (split_point n < n) × (n ≤ split_point n * 2)
unfolding split_point
split_point_lem n h = (
  double_below-IsPower n 1 n one,
  double_below-pos n 1 n (omega arith),
  double_below-lt n 1 n (omega arith) (omega arith),
  double_below-enough n 1 n (omega arith) (omega arith),
)

length-take_le : (k : ℕ) (xs : List Bytes) → length (take k xs) ≤ k
length-take_le zero xs = omega arith
length-take_le (suc k) [] = omega arith
length-take_le (suc k) (x ∷ xs) = omega (arith, length-take_le k xs)

length-drop : (k : ℕ) (xs : List Bytes) → length (drop k xs) ≡ length xs - k
length-drop zero xs = omega arith
length-drop (suc k) [] = omega arith
length-drop (suc k) (x ∷ xs) = omega (arith, length-drop k xs)

join-ne-none : (c : Crypto) (l r : Option Bytes) → l ≢ none → r ≢ none → join c l r ≢ none
join-ne-none c (some l) (some r) p q h = cc
join-ne-none c none r p q h = p refl
join-ne-none c (some l) none p q h = q refl

tree-ne-none :
    (c : Crypto) (fuel : ℕ) (nodes : List Bytes)
    → length nodes ≤ suc fuel
    → tree c fuel nodes ≢ none
unfolding tree
tree-ne-none c fuel [] h e = cc
tree-ne-none c fuel (leaf ∷ []) h e = cc
tree-ne-none c zero (a ∷ b ∷ nodes) h e = absurd (omega (arith, h))
tree-ne-none c (suc fuel) (a ∷ b ∷ nodes) h e =
    let all = a ∷ b ∷ nodes in
    let at = split_point (length all) in
    let k = split_point_lem (length all) (omega arith) in
    let left : length (take at all) ≤ suc fuel = omega (arith, h, k.2, length-take_le at all) in
    let right : length (drop at all) ≤ suc fuel = omega (arith, h, k.1, length-drop at all) in
    join-ne-none c (tree c fuel (take at all)) (tree c fuel (drop at all))
      (tree-ne-none c fuel (take at all) left) (tree-ne-none c fuel (drop at all) right) e

root_text-ne-none : (o : Option Bytes) → o ≢ none → root_text o ≢ none
root_text-ne-none none h e = h refl
root_text-ne-none (some r) h e = cc

-- The Merkle root never runs out of the fuel that it is given, whatever the digests: it is a root
-- or an error.
pub merkle_root-ne-none : (c : Crypto) (digests : List Bytes) → merkle_root c digests ≢ ok none
unfolding merkle_root
merkle_root-ne-none c digests h = elim (Result-cases (leaves c digests)) [
  | inl r ↦
      root_text-ne-none (tree c (length r.0) r.0) (tree-ne-none c (length r.0) r.0 (omega arith))
        (ground (arith, r.1))
  | inr r ↦ ground (arith, r.1)
]

parse_int_lem :
    (s : Bytes) (o : Option ℤ) (n : ℕ)
    → parse_int s o ≡ ok n
    → (to_string (pos n) ≡ s) × (n < 2 ^ 63)
parse_int_lem s none n h = cc
parse_int_lem s (some (negsuc k)) n h = cc
parse_int_lem s (some (pos k)) n h =
    let same : k ≡ n = ground arith in
    subst (λ (j : ℕ). (to_string (pos j) ≡ s) × (j < 2 ^ 63)) same
      (text_eq→eq (to_string (pos k)) s (ground arith), ground arith)

-- A text that is read as a sequence number is the text that the number is printed as, and the
-- number is a nonnegative int64.
pub sequence_lem : (s : Bytes) (n : ℕ) → sequence s ≡ ok n → (to_string (pos n) ≡ s) × (n < 2 ^ 63)
unfolding sequence
sequence_lem s n h = parse_int_lem s (set_string s) n h
