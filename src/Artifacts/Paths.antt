-- ===== src/Artifacts/Paths.antt =====
-- What a valid artifact path looks like.
use science_ladder.Base.{
  ℕ, ◌≡◌, ◌≢◌, inl, inr, refl, sym, ap, ◌∙◌, Bool, true, false, ◌||◌, List, [], ◌∷◌, ◌++◌, arith,
  ◌==◌, Bool-cases, or_none, In, first, later, Bytes, text, is_empty, has_prefix, has_suffix,
  has_char, text_eq, text_eq→eq, ok, All, subst,
}
use science_ladder.Artifacts.{
  has_reserved_part, is_git, validate_path, Unicode, add_head, split, join, dot, dot_dot, go_up,
  push_part, keep_parts, reverse_onto, or_dot, clean, is_rooted,
}

-- A component: not empty, and without a slash.
abbrev IsPart : Bytes → Type 0
IsPart w = (is_empty w ≡ false) × (has_char b'/' w ≡ false)

add_head-split : (c : ℕ) (s : Bytes) → (c == b'/') ≡ false → split (c ∷ s) ≡ add_head c (split s)
unfolding split
add_head-split c s h = rw h

split_plain : (w : Bytes) → has_char b'/' w ≡ false → split w ≡ w ∷ []
unfolding split
split_plain [] h = refl
split_plain (c ∷ w) h =
    let (a, b) = or_none (c == b'/') (has_char b'/' w) h in rw (a, split_plain w b)

split-append : (w s : Bytes) → has_char b'/' w ≡ false → split (w ++ b'/' ∷ s) ≡ w ∷ split s
unfolding split
split-append [] s h = refl
split-append (c ∷ w) s h =
    let (a, b) = or_none (c == b'/') (has_char b'/' w) h in rw (a, split-append w s b)

split-join : (w : Bytes) (ws : List Bytes) → All IsPart (w ∷ ws) → split (join (w ∷ ws)) ≡ w ∷ ws
unfolding join
split-join w [] h = split_plain w h.0.1
split-join w (v ∷ ws) h =
    split-append w (join (v ∷ ws)) h.0.1 ∙ ap (λ (t : List Bytes). w ∷ t) (split-join v ws h.1)

add_head-plain :
    (c : ℕ) (ws : List Bytes)
    → (c == b'/') ≡ false
    → All (λ w. has_char b'/' w ≡ false) ws
    → All (λ w. has_char b'/' w ≡ false) (add_head c ws)
add_head-plain c [] h p = (ground (arith, h), tt)
add_head-plain c (w ∷ ws) h p = (ground (arith, h, p.0), p.1)

All-split : (s : Bytes) → All (λ w. has_char b'/' w ≡ false) (split s)
unfolding split
All-split [] = (refl, tt)
All-split (c ∷ s) = elim (Bool-cases (c == b'/')) [
  | inl h ↦ rw h (refl, All-split s)
  | inr h ↦ rw h (add_head-plain c (split s) h (All-split s))
]

dot_dot-IsPart : IsPart dot_dot
dot_dot-IsPart = (refl, refl)

go_up-All : (rooted : Bool) (kept : List Bytes) → All IsPart kept → All IsPart (go_up rooted kept)
go_up-All true [] h = tt
go_up-All false [] h = (dot_dot-IsPart, tt)
go_up-All rooted (w ∷ ws) h = elim (Bool-cases (text_eq w dot_dot)) [
  | inl e ↦ rw e (dot_dot-IsPart, h)
  | inr e ↦ rw e h.1
]

push_part-All :
    (rooted : Bool) (part : Bytes) (kept : List Bytes)
    → has_char b'/' part ≡ false
    → All IsPart kept
    → All IsPart (push_part rooted part kept)
unfolding push_part
push_part-All rooted part kept plain h = elim (Bool-cases (is_empty part || text_eq part dot)) [
  | inl e ↦ rw e h
  | inr e ↦
      let (full, _) = or_none (is_empty part) (text_eq part dot) e in
      elim (Bool-cases (text_eq part dot_dot)) [
        | inl d ↦ rw (e, d) (go_up-All rooted kept h)
        | inr d ↦ rw (e, d) ((full, plain), h)
      ]
]

keep_parts-All :
    (rooted : Bool) (kept parts : List Bytes)
    → All (λ w. has_char b'/' w ≡ false) parts
    → All IsPart kept
    → All IsPart (keep_parts rooted kept parts)
unfolding keep_parts
keep_parts-All rooted kept [] p h = h
keep_parts-All rooted kept (w ∷ ws) p h =
    keep_parts-All rooted (push_part rooted w kept) ws p.1 (push_part-All rooted w kept p.0 h)

reverse_onto-All :
    (acc ws : List Bytes) → All IsPart acc → All IsPart ws → All IsPart (reverse_onto acc ws)
unfolding reverse_onto
reverse_onto-All acc [] a h = a
reverse_onto-All acc (w ∷ ws) a h = reverse_onto-All (w ∷ acc) ws (h.0, a) h.1

or_dot_lem : (s t : Bytes) → or_dot s ≡ t → text_eq t dot ≡ false → s ≡ t
unfolding text_eq
or_dot_lem [] t e h = absurd (ground (arith, e, h))
or_dot_lem (c ∷ s) t e h = e

All-split_of_join :
    (ws : List Bytes) (s : Bytes)
    → All IsPart ws
    → join ws ≡ s
    → is_empty s ≡ false
    → All IsPart (split s)
unfolding join
All-split_of_join [] s h e full = absurd (ground (arith, e, full))
All-split_of_join (w ∷ ws) s h e full =
    subst (λ (t : List Bytes). All IsPart t) (sym (split-join w ws h) ∙ ap split e) h

-- The components of a relative path in its clean form.
split-clean :
    (s : Bytes)
    → is_rooted s ≡ false
    → clean s ≡ s
    → text_eq s dot ≡ false
    → is_empty s ≡ false
    → All IsPart (split s)
unfolding clean
split-clean s rel same not_dot full =
    let words = reverse_onto [] (keep_parts (is_rooted s) [] (split s)) in
    let parts : All IsPart words =
      reverse_onto-All [] (keep_parts (is_rooted s) [] (split s)) tt
        (keep_parts-All (is_rooted s) [] (split s) (All-split s) tt) in
    let plain : clean s ≡ or_dot (join words) = rw rel refl in
    All-split_of_join words s parts (or_dot_lem (join words) s (sym plain ∙ same) not_dot) full

has_prefix-slash : (s : Bytes) → has_prefix s (text "/") ≡ is_rooted s
unfolding text_eq
has_prefix-slash [] = refl
has_prefix-slash (c ∷ s) = ground arith

member_IsPart : (ws : List Bytes) (p : Bytes) → All IsPart ws → In p ws → is_empty p ≡ false
member_IsPart [] p h i = elim i [ ]
member_IsPart (w ∷ ws) p h first = h.0.0
member_IsPart (w ∷ ws) p h (later i) = member_IsPart ws p h.1 i

member_not_reserved :
    (ws : List Bytes) (p : Bytes)
    → has_reserved_part ws ≡ false
    → In p ws
    → (is_git p ≡ false) × (has_suffix p (text ".") ≡ false)
unfolding has_reserved_part
member_not_reserved [] p h i = elim i [ ]
member_not_reserved (w ∷ ws) p h first = (ground arith, ground arith)
member_not_reserved (w ∷ ws) p h (later i) = member_not_reserved ws p (ground arith) i

dotted : (p : Bytes) → has_suffix p (text ".") ≡ false → (p ≢ dot) × (p ≢ dot_dot)
unfolding text_eq
dotted p h = (λ e. ends dot refl e, λ e. ends dot_dot refl e)
  where
    ends : (q : Bytes) → has_suffix q (text ".") ≡ true → p ≡ q → ⊥
    ends q t e = absurd (cc (sym h ∙ ap (λ (x : Bytes). has_suffix x (text ".")) e ∙ t))

valid_parts :
    (u : Unicode) (s : Bytes)
    → validate_path u s ≡ ok tt
    → (is_empty s ≡ false)
      × (has_prefix s (text "/") ≡ false)
      × (text_eq (clean s) s ≡ true)
      × (text_eq s dot ≡ false)
      × (has_reserved_part (split s) ≡ false)
unfolding validate_path
valid_parts u s h = (ground arith, ground arith, ground arith, ground arith, ground arith)

-- In a valid path every component is not empty, is neither `.` nor `..`, and is not `.git` in any
-- case: the path names a file below its root.
pub validate_path_lem :
    (u : Unicode) (s part : Bytes)
    → validate_path u s ≡ ok tt
    → In part (split s)
    → (is_empty part ≡ false) × (part ≢ dot) × (part ≢ dot_dot) × (is_git part ≡ false)
validate_path_lem u s part h i =
    let (full, prefix, same, not_dot, free) = valid_parts u s h in
    let parts =
      split-clean s (sym (has_prefix-slash s) ∙ prefix) (text_eq→eq (clean s) s same) not_dot
        full in
    let (git, suffix) = member_not_reserved (split s) part free i in
    let (one, two) = dotted part suffix in (member_IsPart (split s) part parts i, one, two, git)
