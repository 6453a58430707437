-- ===== src/Audit/History/Keep.antt =====
-- What a history keeps of the one before it.
use science_ladder.Base.{
  ℕ, ◌≡◌, inl, inr, refl, Option, none, some, List, [], ◌∷◌, arith, Bool-cases, Result-cases, Bytes,
  text_eq→eq, ok, err, Error, >>=-eq-ok, subst, ◌⊎◌, text_eq, some_inj, if_true, if_false,
}
use science_ladder.Base.{In, first, later}
use science_ladder.Signing.{Crypto, Key, Envelope, lookup, verify}
use science_ladder.Audit.Quorum.{fingerprint}
use science_ladder.Audit.History.{
  Delegation, History, Library, by_id, delegation_digest, check_kept, keep_delegations, extend,
  verify_history, check_delegations, accept, breaks_policy, check_link, check_witnesses,
}

check_kept_lem :
    (c : Crypto) (l : Library) (old : Delegation) (o : Option Delegation) (t : ℕ) {u : Unit {0}}
    → check_kept c l old o ≡ ok u
    → old.revoked_at ≡ some t
    → (d : Delegation) × (o ≡ some d)
      × (d.revoked_at ≡ some t)
      × (delegation_digest c l old ≡ delegation_digest c l d)
check_kept_lem c l old none t h r = cc
check_kept_lem c l old (some d) t h r = (
  d,
  refl,
  ground arith,
  text_eq→eq (delegation_digest c l old) (delegation_digest c l d) (ground arith),
)

keep_delegations_lem :
    (c : Crypto) (l : Library) (current : List (Bytes × Delegation)) (olds : List Delegation)
    (old : Delegation) (t : ℕ) {u : Unit {0}}
    → keep_delegations c l current olds ≡ ok u
    → In old olds
    → old.revoked_at ≡ some t
    → (d : Delegation) × (lookup old.key_id current ≡ some d)
      × (d.revoked_at ≡ some t)
      × (delegation_digest c l old ≡ delegation_digest c l d)
unfolding keep_delegations
keep_delegations_lem c l current [] old t h i r = elim i [ ]
keep_delegations_lem c l current (x ∷ olds) old t h first r =
    let (_, kept, _) =
      >>=-eq-ok (check_kept c l x (lookup x.key_id current))
        (λ _. keep_delegations c l current olds) h in
    check_kept_lem c l x (lookup x.key_id current) t kept r
keep_delegations_lem c l current (x ∷ olds) old t h (later i) r =
    let (_, _, more) =
      >>=-eq-ok (check_kept c l x (lookup x.key_id current))
        (λ _. keep_delegations c l current olds) h in
    keep_delegations_lem c l current olds old t more i r

err_is_not_ok {ℓ κ} : {A : Type ℓ} {B : Type κ} {e : Error} {a : A} → err e ≡ ok a → B
err_is_not_ok h = absurd cc

accept-extend :
    (c : Crypto) (l : Library) (print : Bytes) (previous : Option History) (now : ℕ)
    (h0 h : History)
    → accept c l print previous now h0 ≡ ok h
    → extend c l h0 previous ≡ ok h
unfolding accept
accept-extend c l print previous now h0 h done = elim (Bool-cases (breaks_policy h0 print now)) [
  | inl e ↦ err_is_not_ok (rw e at done)
  | inr e ↦
      let done1 = rw e at done in
      elim (Result-cases (check_link c l h0 previous)) [
        | inr e1 ↦ err_is_not_ok (rw e1.1 at done1)
        | inl e1 ↦
            let done2 = rw e1.1 at done1 in
            elim (Result-cases
              (check_delegations c l h0.issued_at (print ∷ []) [] h0.delegations)) [
                | inr e2 ↦ err_is_not_ok (rw e2.1 at done2)
                | inl e2 ↦
                    let done3 = rw e2.1 at done2 in
                    elim (Result-cases (check_witnesses e2.0 [] [] h0.witnesses)) [
                      | inr e3 ↦ err_is_not_ok (rw e3.1 at done3)
                      | inl e3 ↦ rw e3.1 at done3
                    ]
              ]
      ]
]

verify_history-extend :
    (c : Crypto) (l : Library) (e : Envelope) (root_id : Bytes) (root : Key)
    (previous : Option History) (h : History) (now : ℕ)
    → verify_history c l e root_id root previous now ≡ ok h
    → (h0 : History) × (extend c l h0 previous ≡ ok h)
unfolding verify_history
verify_history-extend c l e root_id root previous h now done =
    elim (Result-cases (verify c e ((root_id, some root) ∷ []))) [
      | inr n ↦ absurd (ground (arith, n.1, done))
      | inl b ↦ elim (Result-cases (l.decode_strict b.0)) [
        | inr n ↦ absurd (ground (arith, b.1, n.1, done))
        | inl h0 ↦ elim (Result-cases (fingerprint c root)) [
          | inr n ↦ absurd (ground (arith, b.1, h0.1, n.1, done))
          | inl print ↦ (
            h0.0,
            accept-extend c l print.0 previous now h0.0 h
                (ground (arith, b.1, h0.1, print.1, done)),
          )
        ]
      ]
    ]

extend_parts :
    (c : Crypto) (l : Library) (h0 p h : History)
    → extend c l h0 (some p) ≡ ok h
    → (keep_delegations c l (by_id h0.delegations []) p.delegations ≡ ok tt)
      × (h0.delegations ≡ h.delegations)
unfolding extend
extend_parts c l h0 p h e = (ground arith, ground arith)

-- What is found under an id is a delegation of the list with that id.
by_id-In :
    (id : Bytes) (ds : List Delegation) (current : List (Bytes × Delegation)) {d : Delegation}
    → lookup id (by_id ds current) ≡ some d
    → (lookup id current ≡ some d) ⊎ (In d ds × (d.key_id ≡ id))
unfolding by_id lookup
by_id-In id [] current h = inl h
by_id-In id (x ∷ ds) current h = elim (by_id-In id ds ((x.key_id, x) ∷ current) h) [
  | inr (m, named) ↦ inr (later m, named)
  | inl here ↦ elim (Bool-cases (text_eq x.key_id id)) [
    | inl e ↦
        let same = some_inj (if_true _ _ _ e here) in
        inr (
          subst (λ (d : Delegation). In d (x ∷ ds)) same first,
          subst (λ (d : Delegation). d.key_id ≡ id) same (text_eq→eq x.key_id id e),
        )
    | inr e ↦ inl (if_false _ _ _ e here)
  ]
]

found-In :
    (id : Bytes) (ds : List Delegation) {d : Delegation}
    → lookup id (by_id ds []) ≡ some d
    → In d ds × (d.key_id ≡ id)
unfolding lookup
found-In id ds h = elim (by_id-In id ds [] h) [ inl n ↦ absurd (cc n) | inr found ↦ found ]

-- Where a history is verified on top of a previous one in which a delegation was revoked at a time,
-- its list has a delegation with the same key id that is revoked at the same time and, the
-- revocation left out, has the same digest.
pub verify_history_keeps :
    (c : Crypto) (l : Library) (e : Envelope) (root_id : Bytes) (root : Key) (p h : History)
    (now : ℕ) (old : Delegation) (t : ℕ)
    → verify_history c l e root_id root (some p) now ≡ ok h
    → In old p.delegations
    → old.revoked_at ≡ some t
    → (d : Delegation) × In d h.delegations
      × (d.key_id ≡ old.key_id)
      × (d.revoked_at ≡ some t)
      × (delegation_digest c l old ≡ delegation_digest c l d)
verify_history_keeps c l e root_id root p h now old t done i r =
    let (h0, extended) = verify_history-extend c l e root_id root (some p) h now done in
    let (kept, same) = extend_parts c l h0 p h extended in
    let (d, found, revoked, digest) =
      keep_delegations_lem c l (by_id h0.delegations []) p.delegations old t kept i r in
    let (among, named) = found-In old.key_id h0.delegations found in
    (d, subst (In d) same among, named, revoked, digest)
