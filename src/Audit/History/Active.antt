-- ===== src/Audit/History/Active.antt =====
-- internal/audit/history.go: the keys and the witnesses in force at a time.
use science_ladder.Base.{
  is_in, ℕ, ◌+◌, ◌≤◌, ◌<◌, ◌≡◌, ◌⊎◌, inl, inr, Bool, true, false, ◌&&◌, ◌||◌, not, Option, none,
  some, List, [], ◌∷◌, arith, ltb, leb, ◌==◌, if◌then◌else◌, Bool-cases, Bytes, text_eq, text_eq→eq,
  Result, ok, err, refl, sym, some_inj, if_true,
}
use science_ladder.Base.{In, first, later}
use science_ladder.Signing.{Key, Keys, lookup}
use science_ladder.Audit.Merkle.{genesis}
use science_ladder.Audit.Checkpoint.{five_minutes}
use science_ladder.Audit.Quorum.{Operators}
use science_ladder.Audit.History.{
  Delegation, WitnessIdentity, Membership, nothing, epoch, History, Library, parse_public_key,
}

abbrev pub is_revoked : Option ℕ → ℕ → Bool
is_revoked none at = false
is_revoked (some t) at = not (ltb at t)

abbrev pub is_active : Delegation → ℕ → Bool
is_active d at = not (ltb at d.not_before || not (ltb at d.not_after) || is_revoked d.revoked_at at)

abbrev pub add_key : Bytes → Result Key → Keys → Keys
add_key id (err e) keys = keys
add_key id (ok key) keys = (id, some key) ∷ keys

-- `KeysAt`
unfoldable pub keys_at : Library → Bytes → ℕ → Keys → List Delegation → Keys
unfolding parse_public_key
keys_at l role at keys [] = keys
keys_at l role at keys (d ∷ ds) =
    keys_at l role at
      (if is_active d at && is_in role d.roles
        then add_key d.key_id (parse_public_key l d.public_key_pem) keys
        else keys)
      ds

unfoldable pub operators_of : Operators → List WitnessIdentity → Operators
operators_of m [] = m
operators_of m (w ∷ ws) = operators_of ((w.key_id, w.operator) ∷ m) ws

-- The loop of `WitnessOperatorsAt`, back to the epoch in force at the time.
unfoldable pub members_at :
    ℕ → ℕ → List WitnessIdentity → Bool → Membership → Option (List WitnessIdentity)
members_at at issued witnesses is_first nothing =
    if ltb at issued && not is_first then none else some witnesses
members_at at issued witnesses is_first (epoch issued' witnesses' is_first' before) =
    let earlier = members_at at issued' witnesses' is_first' before in
    if ltb at issued then earlier else some witnesses

abbrev pub all_operators : Option (List WitnessIdentity) → Operators
all_operators none = []
all_operators (some ws) = operators_of [] ws

unfoldable pub witness_operators_at : History → ℕ → Operators
unfolding members_at operators_of
witness_operators_at h at =
    all_operators
      (members_at at h.issued_at h.witnesses (text_eq h.previous_digest genesis) h.prior_witnesses)

abbrev pub one_hour : ℕ
one_hour = 3600000000000

unfoldable pub intake_allowed : ℕ → ℕ → Bool
intake_allowed last_quorum now =
    not (last_quorum == 0)
    && not (ltb (now + five_minutes) last_quorum)
    && leb now (last_quorum + one_hour)

-- What a key of `KeysAt` comes from.
pub record Source (l : Library) (role : Bytes) (at : ℕ) (id : Bytes) (key : Option Key)
    (ds : List Delegation) : Type 0 where
  pub delegation : Delegation
  pub among : In delegation ds
  pub named : delegation.key_id ≡ id
  pub entitled : is_in role delegation.roles ≡ true
  pub begun : delegation.not_before ≤ at
  pub ends_later : at < delegation.not_after
  pub not_revoked : is_revoked delegation.revoked_at at ≡ false
  pub parsed : (k : Key) × (parse_public_key l delegation.public_key_pem ≡ ok k) × (key ≡ some k)

Source-later :
    (l : Library) (role : Bytes) (at : ℕ) (id : Bytes) (key : Option Key) (d : Delegation)
    (ds : List Delegation)
    → Source l role at id key ds
    → Source l role at id key (d ∷ ds)
Source-later l role at id key d ds s = record {
  delegation = s.delegation;
  among = later s.among;
  named = s.named;
  entitled = s.entitled;
  begun = s.begun;
  ends_later = s.ends_later;
  not_revoked = s.not_revoked;
  parsed = s.parsed;
}

added :
    (id : Bytes) (r : Result Key) (keys : Keys) (k : Bytes) {key : Option Key}
    → lookup k (add_key id r keys) ≡ some key
    → ((id ≡ k) × (read : Key) × (r ≡ ok read) × (key ≡ some read)) ⊎ (lookup k keys ≡ some key)
unfolding lookup
added id (err e) keys k h = inr h
added id (ok key) keys k h = elim (Bool-cases (text_eq id k)) [
  | inl e ↦ inl (text_eq→eq id k e, key, refl, sym (some_inj (if_true _ _ _ e h)))
  | inr e ↦ inr (ground (arith, e, h))
]

active_parts :
    (d : Delegation) (role : Bytes) (at : ℕ)
    → (is_active d at && is_in role d.roles) ≡ true
    → (is_in role d.roles ≡ true)
      × (d.not_before ≤ at)
      × (at < d.not_after)
      × (is_revoked d.revoked_at at ≡ false)
active_parts d role at h = (ground arith, ground arith, ground arith, ground arith)

keys_at-Source :
    (l : Library) (role : Bytes) (at : ℕ) (id : Bytes) (key : Option Key) (ds : List Delegation)
    (keys : Keys)
    → lookup id (keys_at l role at keys ds) ≡ some key
    → (lookup id keys ≡ some key) ⊎ Source l role at id key ds
unfolding keys_at
keys_at-Source l role at id key [] keys h = inl h
keys_at-Source l role at id key (d ∷ ds) keys h =
    elim (Bool-cases (is_active d at && is_in role d.roles)) [
      | inr off ↦ elim (keys_at-Source l role at id key ds keys (rw off at h)) [
        | inl old ↦ inl old
        | inr s ↦ inr (Source-later l role at id key d ds s)
      ]
      | inl on ↦
          elim (keys_at-Source l role at id key ds
            (add_key d.key_id (parse_public_key l d.public_key_pem) keys) (rw on at h)) [
              | inr s ↦ inr (Source-later l role at id key d ds s)
              | inl new ↦ elim (added d.key_id (parse_public_key l d.public_key_pem) keys id new) [
                | inr old ↦ inl old
                | inl (e, read_key, read, same) ↦
                    let (entitled, begun, ends_later, not_revoked) = active_parts d role at on in
                    inr (record {
                      delegation = d;
                      among = first;
                      named = e;
                      entitled = entitled;
                      begun = begun;
                      ends_later = ends_later;
                      not_revoked = not_revoked;
                      parsed = (read_key, read, same);
                    })
              ]
            ]
    ]

-- A key that is in force for a role at a time is that of a delegation of the list with its id and
-- that role, whose window holds the time and which is not revoked by then.
pub keys_at_lem :
    (l : Library) (role : Bytes) (at : ℕ) (id : Bytes) (key : Option Key) (ds : List Delegation)
    → lookup id (keys_at l role at [] ds) ≡ some key
    → Source l role at id key ds
unfolding lookup
keys_at_lem l role at id key ds h = elim (keys_at-Source l role at id key ds [] h) [
  | inl old ↦ absurd (ground (arith, old))
  | inr s ↦ s
]
