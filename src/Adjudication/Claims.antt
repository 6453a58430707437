-- ===== src/Adjudication/Claims.antt =====
-- Who holds a milestone, and what new claims change.
use science_ladder.Base.{
  ◌≡◌, inl, inr, refl, sym, ◌∙◌, false, not, Option, none, some, List, [], ◌∷◌, arith,
  if◌then◌else◌, Bool-cases, Bytes, is_none, text_eq, text_eq→eq, ok, fault, reject_if,
  reject_if-ok, >>=-eq-ok,
}
use science_ladder.Adjudication.Rows.{Claim}
use science_ladder.Adjudication.Judge.{is_claimed}
use science_ladder.Adjudication.Write.{insert_claims, is_member}

-- The submission that holds a milestone.
unfoldable pub holder : Bytes → List Claim → Option Bytes
holder mid [] = none
holder mid (c ∷ cs) =
    let rest = holder mid cs in if text_eq c.milestone mid then some c.submission else rest

abbrev pub or_else : Option Bytes → Option Bytes → Option Bytes
or_else (some a) o = some a
or_else none o = o

or_else-none : (o : Option Bytes) → o ≡ or_else o none
or_else-none none = refl
or_else-none (some a) = refl

new_first :
    (new mid : Bytes) (mids : List Bytes) (claims : List Claim) (c : Claim)
    → c.milestone ≡ new
    → not (is_none (holder new claims)) ≡ false
    → or_else (holder mid (c ∷ claims)) (if is_member mid mids then some c.submission else none)
      ≡ or_else (holder mid claims) (if is_member mid (new ∷ mids) then some c.submission else none)
unfolding holder
new_first new mid mids claims c e free = elim (Bool-cases (text_eq new mid)) [
  | inl same ↦
      let hold : not (is_none (holder mid claims)) ≡ false = rw (← text_eq→eq new mid same) free in
      rw (e, same) (ground arith)
  | inr other ↦ rw (e, other) refl
]

pub is_claimed-holder :
    (mid : Bytes) (claims : List Claim) → is_claimed mid claims ≡ not (is_none (holder mid claims))
unfolding is_claimed holder
is_claimed-holder mid [] = refl
is_claimed-holder mid (c ∷ cs) = ground (arith, is_claimed-holder mid cs)

module _ (submission receipt : Bytes) where
  -- The holders after new claims: the old ones, and the claimant for the rest of its milestones.
  pub holder-insert_claims :
      (mids : List Bytes) (claims : List Claim) (claims' : List Claim) (mid : Bytes)
      → insert_claims submission receipt mids claims ≡ ok claims'
      → holder mid claims'
        ≡ or_else (holder mid claims) (if is_member mid mids then some submission else none)
  unfolding insert_claims
  holder-insert_claims [] claims claims' mid h =
      let same : claims ≡ claims' = cc in rw (← same) (or_else-none (holder mid claims))
  holder-insert_claims (new ∷ mids) claims claims' mid h =
      let (x, open_, rest) = >>=-eq-ok (reject_if (is_claimed new claims) fault) _ h in
      let claim : Claim = record { milestone = new; submission = submission; receipt = receipt } in
      let free : not (is_none (holder new claims)) ≡ false =
        sym (is_claimed-holder new claims) ∙ reject_if-ok _ _ open_ in
      holder-insert_claims mids (claim ∷ claims) claims' mid rest
      ∙ new_first new mid mids claims claim refl free
