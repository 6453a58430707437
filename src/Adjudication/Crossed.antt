-- ===== src/Adjudication/Crossed.antt =====
-- The open milestones that a submission crosses.
use science_ladder.Base.{
  ◌≡◌, ◌⊎◌, inl, inr, Bool, true, false, ◌&&◌, List, [], ◌∷◌, arith, if◌then◌else◌, Bool-cases, In,
  first, later, Bytes, text_eq, text_eq→eq, text_eq_refl, ok, >>=-eq-ok, All, refl, sym, ok_inj,
  subst,
}
use science_ladder.Adjudication.Rows.{Tier, Claim, Env}
use science_ladder.Manifest.{Manifest}
use science_ladder.Results.{RunReceipt}
use science_ladder.Adjudication.Judge.{is_claimed, crossed, is_eligible}
use science_ladder.Adjudication.Write.{is_member, insert_claims}
use science_ladder.Compare.{crosses}

module _ (env : Env) (m : Manifest) (score : Bytes) (runs : List RunReceipt)
    (claims : List Claim) where
  keep_if : Tier → Bool → List Bytes → List Bytes
  keep_if t e more = if e && crosses score t.threshold m.metric.direction then t.id ∷ more else more

  -- The first milestone is claimed already, or it is judged and the rest follows.
  crossed_parts :
      (t : Tier) (ts : List Tier) (mids : List Bytes)
      → is_claimed t.id claims ≡ false
      → crossed env m score runs claims (t ∷ ts) ≡ ok mids
      → (e : Bool) × (more : List Bytes) × (is_eligible env m t.id runs ≡ ok e)
        × (crossed env m score runs claims ts ≡ ok more)
        × (keep_if t e more ≡ mids)
  unfolding crossed keep_if
  crossed_parts t ts mids free h =
      let (e, eligible, h₁) = >>=-eq-ok (is_eligible env m t.id runs) _ (rw free at h) in
      let (more, rest, h₂) = >>=-eq-ok (crossed env m score runs claims ts) _ h₁ in
      (e, more, eligible, rest, cc)

  crossed_claimed :
      (t : Tier) (ts : List Tier) (mids : List Bytes)
      → is_claimed t.id claims ≡ true
      → crossed env m score runs claims (t ∷ ts) ≡ ok mids
      → crossed env m score runs claims ts ≡ ok mids
  unfolding crossed
  crossed_claimed t ts mids taken h = rw taken at h

  keep_if-member :
      (t : Tier) (e : Bool) (more : List Bytes) (mid : Bytes)
      → is_member mid more ≡ true
      → is_member mid (keep_if t e more) ≡ true
  unfolding keep_if
  keep_if-member t e more mid h =
      elim (Bool-cases (e && crosses score t.threshold m.metric.direction)) [
        | inl k ↦ rw k (ground arith)
        | inr k ↦ rw k h
      ]

  keep_if_self :
      (t : Tier) (e : Bool) (more : List Bytes)
      → e ≡ true
      → crosses score t.threshold m.metric.direction ≡ true
      → is_member t.id (keep_if t e more) ≡ true
  unfolding keep_if
  keep_if_self t e more h k = rw (h, k, text_eq_refl t.id)

  -- Every open milestone that the submission may have and crosses is among those it claims.
  pub crossed-member :
      (tiers : List Tier) (t : Tier) (mids : List Bytes)
      → crossed env m score runs claims tiers ≡ ok mids
      → In t tiers
      → is_claimed t.id claims ≡ false
      → is_eligible env m t.id runs ≡ ok true
      → crosses score t.threshold m.metric.direction ≡ true
      → is_member t.id mids ≡ true
  crossed-member [] t mids h i free eligible over = elim i [ ]
  crossed-member (u ∷ tiers) t mids h first free eligible over =
      let (e, more, judged_, rest, kept) = crossed_parts u tiers mids free h in
      rw (← kept) (keep_if_self u e more (cc) over)
  crossed-member (u ∷ tiers) t mids h (later i) free eligible over =
      elim (Bool-cases (is_claimed u.id claims)) [
        | inl taken ↦
            crossed-member tiers t mids (crossed_claimed u tiers mids taken h) i free eligible over
        | inr untaken ↦
            let (e, more, judged_, rest, kept) = crossed_parts u tiers mids untaken h in
            rw (← kept)
              (keep_if-member u e more t.id (crossed-member tiers t more rest i free eligible over))
      ]

  -- What a submission claims is an open milestone that it may have and crosses.
  keep_if-cases :
      (t : Tier) (e : Bool) (more : List Bytes) (mid : Bytes)
      → is_member mid (keep_if t e more) ≡ true
      → ((t.id ≡ mid) × (e ≡ true) × (crosses score t.threshold m.metric.direction ≡ true))
        ⊎ (is_member mid more ≡ true)
  unfolding keep_if
  keep_if-cases t e more mid h = ground (arith, text_eq→eq t.id mid)

  pub member-crossed :
      (tiers : List Tier) (mid : Bytes) (mids : List Bytes)
      → crossed env m score runs claims tiers ≡ ok mids
      → is_member mid mids ≡ true
      → (t : Tier) × In t tiers
        × (t.id ≡ mid)
        × (is_eligible env m mid runs ≡ ok true)
        × (crosses score t.threshold m.metric.direction ≡ true)
  unfolding crossed
  member-crossed [] mid mids h k = ground arith
  member-crossed (u ∷ tiers) mid mids h k = elim (Bool-cases (is_claimed u.id claims)) [
    | inl taken ↦
        let (t, i, e, l, o) =
          member-crossed tiers mid mids (crossed_claimed u tiers mids taken h) k in
        (t, later i, e, l, o)
    | inr untaken ↦
        let (e, more, judged_, rest, kept) = crossed_parts u tiers mids untaken h in
        elim (keep_if-cases u e more mid (rw (← kept) at k)) [
          | inl here ↦ (u, first, here.0, cc, here.2)
          | inr there ↦
              let (t, i, e, l, o) = member-crossed tiers mid more rest there in
              (t, later i, e, l, o)
        ]
  ]

-- The tiers of a version have different ids.
unfoldable pub IsDistinct : List Tier → Type 0
IsDistinct [] = Unit
IsDistinct (t ∷ ts) = All (λ u. text_eq t.id u.id ≡ false) ts × IsDistinct ts

-- What has no claim among `old` has none among `new`.
abbrev Frees : List Claim → List Claim → List Tier → Type 0
Frees old new ts = All (λ t. (is_claimed t.id old ≡ true) ⊎ (is_claimed t.id new ≡ false)) ts

pub All_same : (claims : List Claim) (ts : List Tier) → Frees claims claims ts
All_same claims [] = tt
All_same claims (t ∷ ts) = (Bool-cases (is_claimed t.id claims), All_same claims ts)

Frees-new :
    (old new : List Claim) (c : Claim) (ts : List Tier)
    → All (λ u. text_eq c.milestone u.id ≡ false) ts
    → Frees old new ts
    → Frees old (c ∷ new) ts
unfolding is_claimed
Frees-new old new c [] d f = tt
Frees-new old new c (t ∷ ts) (other, d) (inl taken, f) = (inl taken, Frees-new old new c ts d f)
Frees-new old new c (t ∷ ts) (other, d) (inr free, f) =
    (inr (rw (other, free) refl), Frees-new old new c ts d f)

module _ (submission receipt : Bytes) where
  abbrev new_claim : Bytes → Claim
  new_claim mid = record { milestone = mid; submission = submission; receipt = receipt }

  abbrev Inserted : List Bytes → List Claim → Type 0
  Inserted mids claims =
      (claims' : List Claim) × (insert_claims submission receipt mids claims ≡ ok claims')

  pub no_claims : (claims : List Claim) (mids : List Bytes) → mids ≡ [] → Inserted mids claims
  unfolding insert_claims
  no_claims claims mids e = (claims, rw e refl)

  -- One more milestone, if it is given.
  insert_one :
      (b : Bool) (mid : Bytes) (more mids : List Bytes) (claims : List Claim)
      → is_claimed mid claims ≡ false
      → Inserted more claims
      → Inserted more (new_claim mid ∷ claims)
      → (if b then mid ∷ more else more) ≡ mids
      → Inserted mids claims
  unfolding insert_claims
  insert_one true mid more mids claims free without with_it e =
      subst (λ (l : List Bytes). Inserted l claims) e (with_it.0, rw free with_it.1)
  insert_one false mid more mids claims free without with_it e =
      subst (λ (l : List Bytes). Inserted l claims) e without

  -- The milestones that are crossed and open are inserted without an error.
  pub crossed-Inserted :
      (env : Env) (m : Manifest) (score : Bytes) (runs : List RunReceipt) (old : List Claim)
      (tiers : List Tier) (new : List Claim) (mids : List Bytes)
      → IsDistinct tiers
      → Frees old new tiers
      → crossed env m score runs old tiers ≡ ok mids
      → Inserted mids new
  unfolding IsDistinct crossed keep_if
  crossed-Inserted env m score runs old [] new mids d f h = no_claims new mids (sym (ok_inj h))
  crossed-Inserted env m score runs old (t ∷ ts) new mids (others, d) (now, f) h =
      elim (Bool-cases (is_claimed t.id old)) [
        | inl taken ↦
            crossed-Inserted env m score runs old ts new mids d f
              (crossed_claimed env m score runs old t ts mids taken h)
        | inr free ↦
            let (e, more, _, rest, kept) = crossed_parts env m score runs old t ts mids free h in
            insert_one (e && crosses score t.threshold m.metric.direction) t.id more mids new
              (open_now free now) (crossed-Inserted env m score runs old ts new more d f rest)
              (crossed-Inserted env m score runs old ts (new_claim t.id ∷ new) more d
                (Frees-new old new (new_claim t.id) ts others f) rest)
              kept
      ]
    where
      open_now :
          is_claimed t.id old ≡ false
          → (is_claimed t.id old ≡ true) ⊎ (is_claimed t.id new ≡ false)
          → is_claimed t.id new ≡ false
      open_now free (inl taken) = cc
      open_now free (inr open_) = open_
