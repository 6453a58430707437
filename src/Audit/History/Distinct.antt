-- ===== src/Audit/History/Distinct.antt =====
-- A key id stands in an accepted history once.
use science_ladder.Base.{
  ℕ, ◌≡◌, refl, sym, ap, ◌∙◌, false, ◌||◌, ◌&&◌, not, ltb, ◌==◌, is_empty, is_in, length, text,
  message, inl, inr, List, [], ◌∷◌, arith, Bool-cases, Bytes, text_eq, text_eq_refl, ok, >>=-eq-ok,
  passed_guard, passed_check, In, first, later,
}
use science_ladder.Signing.{Crypto, lookup}
use science_ladder.Audit.Checkpoint.{or_empty}
use science_ladder.Audit.Quorum.{fingerprint}
use science_ladder.Audit.History.{
  Delegation, Library, Roles, is_known, bad_revocation, parse_public_key, check_roles,
  check_delegations,
}

unseen :
    (j k : Bytes) (these : List Bytes) (roles : Roles)
    → is_known (lookup k ((j, these) ∷ roles)) ≡ false
    → (text_eq j k ≡ false) × (is_known (lookup k roles) ≡ false)
unfolding lookup
unseen j k these roles h = elim (Bool-cases (text_eq j k)) [
  | inl e ↦ absurd (ground (arith, e, h))
  | inr e ↦ (e, rw e at h)
]

module _ (c : Crypto) (l : Library) (issued : ℕ) {out : Roles} where
  -- One round of the loop that accepts.
  accepted_one :
      (prints : List Bytes) (roles : Roles) (d : Delegation) (ds : List Delegation)
      → check_delegations c l issued prints roles (d ∷ ds) ≡ ok out
      → (is_known (lookup d.key_id roles) ≡ false)
        × (prints' : List Bytes) × (check_delegations c l issued prints'
              ((d.key_id, d.roles) ∷ roles)
              ds
            ≡ ok out)
  unfolding check_delegations
  accepted_one prints roles d ds h =
      let (key, _, h1) = >>=-eq-ok (parse_public_key l d.public_key_pem) _ h in
      let f = or_empty (fingerprint c key) in
      let (good, h2) =
        passed_guard
          (is_empty d.key_id
            || is_known (lookup d.key_id roles)
            || is_in f prints
            || not (ltb d.not_before d.not_after)
            || is_empty d.custody
            || is_empty d.roles)
          (message "invalid or duplicate key delegation") h1 in
      let (_, h3) =
        passed_guard (bad_revocation d.revoked_at d.not_before issued)
          (message "invalid revocation effective time") h2 in
      let (_, h4) = passed_check (check_roles [] d.roles) h3 in
      let (_, h5) =
        passed_guard
          (is_in (text "validation-run") d.roles
            && (is_empty d.host_id || not (length d.roles == 1)))
          (message "runner key must be bound to one host and validation-run role") h4 in
      let (_, h6) =
        passed_guard (is_in (text "audit-witness") d.roles && not (length d.roles == 1))
          (message "witness keys must have only the witness role") h5 in
      (ground (arith, good), or_empty (fingerprint c key) ∷ prints, h6)

  -- No accepted delegation has a key id that was seen before.
  key_is_new :
      (prints : List Bytes) (roles : Roles) {d : Delegation} (ds : List Delegation)
      → check_delegations c l issued prints roles ds ≡ ok out
      → In d ds
      → is_known (lookup d.key_id roles) ≡ false
  key_is_new prints roles [] h m = elim m [ ]
  key_is_new prints roles (d ∷ ds) h first = (accepted_one prints roles d ds h).0
  key_is_new prints roles {d} (x ∷ ds) h (later m) =
      let (_, prints', rest) = accepted_one prints roles x ds h in
      (unseen x.key_id d.key_id x.roles roles
        (key_is_new prints' ((x.key_id, x.roles) ∷ roles) ds rest m)).1

  repeated :
      (prints : List Bytes) (roles : Roles) (x d : Delegation) (ds : List Delegation)
      → check_delegations c l issued prints roles (x ∷ ds) ≡ ok out
      → In d ds
      → x.key_id ≡ d.key_id
      → ⊥
  repeated prints roles x d ds h m e =
      let (_, prints', rest) = accepted_one prints roles x ds h in
      let (differ, _) =
        unseen x.key_id d.key_id x.roles roles
          (key_is_new prints' ((x.key_id, x.roles) ∷ roles) ds rest m) in
      let same = ap (λ (k : Bytes). text_eq x.key_id k) (sym e) ∙ text_eq_refl x.key_id in cc

  -- Two accepted delegations with the same key id are one.
  pub same_delegation :
      (prints : List Bytes) (roles : Roles) {d d' : Delegation} (ds : List Delegation)
      → check_delegations c l issued prints roles ds ≡ ok out
      → In d ds
      → In d' ds
      → d.key_id ≡ d'.key_id
      → d ≡ d'
  same_delegation prints roles [] h m _ e = elim m [ ]
  same_delegation prints roles (x ∷ ds) h first first e = refl
  same_delegation prints roles {d} {d'} (x ∷ ds) h first (later m) e =
      absurd (repeated prints roles x d' ds h m e)
  same_delegation prints roles {d} {d'} (x ∷ ds) h (later m) first e =
      absurd (repeated prints roles x d ds h m (sym e))
  same_delegation prints roles (x ∷ ds) h (later m) (later m') e =
      let (_, prints', rest) = accepted_one prints roles x ds h in
      same_delegation prints' ((x.key_id, x.roles) ∷ roles) ds rest m m' e
