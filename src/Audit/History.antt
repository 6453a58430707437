-- ===== src/Audit/History.antt =====
-- internal/audit/history.go: the history of key delegations and of the witnesses. A time is a
-- number of nanoseconds, 0 for the zero time.
pub mod Keep
pub mod Active
pub mod Distinct
use science_ladder.Base.{
  is_in, ℕ, ◌+◌, ◌-◌, Bool, true, false, ◌&&◌, ◌||◌, not, Option, none, some, List, [], ◌∷◌, ltb,
  ◌==◌, if◌then◌else◌, Bytes, text, is_empty, text_eq, length, Result, ok, err, message, ◌>>=◌,
  ◌>>◌, reject_if,
}
use science_ladder.Signing.{Crypto, Key, Envelope, lookup, verify}
use science_ladder.Audit.Merkle.{genesis, hash, valid_digest}
use science_ladder.Audit.Checkpoint.{api_version, five_minutes, or_empty}
use science_ladder.Audit.Quorum.{fingerprint}

pub record Delegation : Type 0 where
  pub key_id : Bytes
  pub public_key_pem : Bytes
  pub roles : List Bytes
  pub not_before : ℕ
  pub not_after : ℕ
  pub revoked_at : Option ℕ
  pub host_id : Bytes
  pub custody : Bytes

pub record WitnessIdentity : Type 0 where
  pub key_id : Bytes
  pub operator : Bytes

-- `witnessMembership`: the members of an epoch, when it was issued, whether it is the first, and
-- the epoch before it.
pub data Membership : Type 0 where
  nothing : Membership
  epoch : ℕ → List WitnessIdentity → Bool → Membership → Membership

pub record History : Type 0 where
  pub api_version : Bytes
  pub kind : Bytes
  pub root_fingerprint : Bytes
  pub previous_digest : Bytes
  pub genesis_checkpoint_digest : Bytes
  pub issued_at : ℕ
  pub delegations : List Delegation
  pub witnesses : List WitnessIdentity
  pub witness_quorum : ℕ
  pub outage_grace_seconds : ℕ
  pub prior_witnesses : Membership

-- What the code takes from elsewhere: `pem.Decode` (the type, the bytes and the rest),
-- `strings.TrimSpace`, the parser of a P-256 key, and JSON.
pub record Library : Type 0 where
  pub decode_pem : Bytes → Option (Bytes × Bytes × Bytes)
  pub trim_space : Bytes → Bytes
  pub parse_p256 : Bytes → Option Key
  pub decode_strict : Bytes → Result History
  pub marshal_history : History → Result Bytes
  pub marshal_delegation : Delegation → Result Bytes

abbrev pub parsed_key : Option Key → Result Key
parsed_key none = err (message "P-256 public key required")
parsed_key (some key) = ok key

abbrev pub from_pem : Library → Option (Bytes × Bytes × Bytes) → Result Key
from_pem l none = err (message "exactly one public-key PEM is required")
from_pem l (some (kind, body, rest)) =
    if not (text_eq kind (text "PUBLIC KEY")) || not (is_empty (l.trim_space rest))
    then err (message "exactly one public-key PEM is required")
    else parsed_key (l.parse_p256 body)

unfoldable pub parse_public_key : Library → Bytes → Result Key
parse_public_key l pem = from_pem l (l.decode_pem pem)

abbrev pub canonical_of : Crypto → Result Bytes → Result Bytes
canonical_of c marshalled = do b ← marshalled; canonical ← c.canonical_json b; ok (hash c canonical)

-- The roles of each delegated key.
abbrev pub Roles : Type 0
Roles = List (Bytes × List Bytes)

abbrev pub is_role : Bytes → Bool
is_role role =
    text_eq role (text "control-plane-receipt")
    || text_eq role (text "audit-checkpoint")
    || text_eq role (text "validation-run")
    || text_eq role (text "audit-witness")

unfoldable pub check_roles : List Bytes → List Bytes → Result (Unit {0})
check_roles seen [] = ok tt
check_roles seen (role ∷ roles) = do
  reject_if (not (is_role role)) (message "unsupported delegated role")
  reject_if (is_in role seen) (message "duplicate key role")
  check_roles (role ∷ seen) roles

abbrev pub is_known {ℓ} : {A : Type ℓ} → Option A → Bool
is_known none = false
is_known (some _) = true

abbrev pub bad_revocation : Option ℕ → ℕ → ℕ → Bool
bad_revocation none not_before issued = false
bad_revocation (some t) not_before issued = ltb t not_before || ltb issued t

-- The loop over the delegations.
unfoldable pub check_delegations :
    Crypto → Library → ℕ → List Bytes → Roles → List Delegation → Result Roles
unfolding parse_public_key check_roles lookup fingerprint
check_delegations c l issued prints roles [] = ok roles
check_delegations c l issued prints roles (d ∷ ds) = do
  key ← parse_public_key l d.public_key_pem
  let f = or_empty (fingerprint c key)
  reject_if
      (is_empty d.key_id
        || is_known (lookup d.key_id roles)
        || is_in f prints
        || not (ltb d.not_before d.not_after)
        || is_empty d.custody
        || is_empty d.roles)
      (message "invalid or duplicate key delegation")
  reject_if (bad_revocation d.revoked_at d.not_before issued)
      (message "invalid revocation effective time")
  check_roles [] d.roles
  reject_if
      (is_in (text "validation-run") d.roles && (is_empty d.host_id || not (length d.roles == 1)))
      (message "runner key must be bound to one host and validation-run role")
  reject_if (is_in (text "audit-witness") d.roles && not (length d.roles == 1))
      (message "witness keys must have only the witness role")
  check_delegations c l issued (f ∷ prints) ((d.key_id, d.roles) ∷ roles) ds

abbrev pub has_role : Bytes → Option (List Bytes) → Bool
has_role role none = false
has_role role (some roles) = is_in role roles

unfoldable pub check_witnesses :
    Roles → List Bytes → List Bytes → List WitnessIdentity → Result (Unit {0})
unfolding lookup
check_witnesses roles operators ids [] = ok tt
check_witnesses roles operators ids (w ∷ ws) = do
  reject_if
      (is_empty w.operator
        || is_in w.operator operators
        || is_in w.key_id ids
        || not (has_role (text "audit-witness") (lookup w.key_id roles)))
      (message "three distinct independently operated witness keys required")
  check_witnesses roles (w.operator ∷ operators) (w.key_id ∷ ids) ws

-- `current[d.KeyID] = d`
unfoldable pub by_id : List Delegation → List (Bytes × Delegation) → List (Bytes × Delegation)
by_id [] current = current
by_id (d ∷ ds) current = by_id ds ((d.key_id, d) ∷ current)

abbrev pub without_revocation : Delegation → Delegation
without_revocation d = record d { revoked_at = none }

abbrev pub delegation_digest : Crypto → Library → Delegation → Bytes
delegation_digest c l d = or_empty (canonical_of c (l.marshal_delegation (without_revocation d)))

-- A revocation stays, at its time.
abbrev pub keeps_revocation : Option ℕ → Option ℕ → Bool
keeps_revocation none new = true
keeps_revocation (some t) none = false
keeps_revocation (some t) (some u) = t == u

abbrev pub check_kept : Crypto → Library → Delegation → Option Delegation → Result (Unit {0})
check_kept c l old none = err (message "key history cannot discard historical delegations")
check_kept c l old (some d) = do
  reject_if (not (text_eq (delegation_digest c l old) (delegation_digest c l d)))
      (message "existing delegation cannot be rewritten")
  reject_if (not (keeps_revocation old.revoked_at d.revoked_at))
      (message "a revocation cannot be withdrawn or rewritten")

-- The loop over the previous delegations.
unfoldable pub keep_delegations :
    Crypto → Library → List (Bytes × Delegation) → List Delegation → Result (Unit {0})
unfolding lookup
keep_delegations c l current [] = ok tt
keep_delegations c l current (old ∷ olds) = do
  check_kept c l old (lookup old.key_id current)
  keep_delegations c l current olds

-- `if previous == nil { … } else { … }`
unfoldable pub check_link : Crypto → Library → History → Option History → Result (Unit {0})
check_link c l h none =
    reject_if (not (text_eq h.previous_digest genesis)) (message "key-history bootstrap gap")
check_link c l h (some p) =
    reject_if
      (not (text_eq h.previous_digest (or_empty (canonical_of c (l.marshal_history p))))
        || ltb h.issued_at p.issued_at
        || not (text_eq h.genesis_checkpoint_digest p.genesis_checkpoint_digest)
        || not (text_eq h.root_fingerprint p.root_fingerprint))
      (message "broken key-history chain")

unfoldable pub extend : Crypto → Library → History → Option History → Result History
unfolding by_id keep_delegations
extend c l h none = ok h
extend c l h (some p) = do
  keep_delegations c l (by_id h.delegations []) p.delegations
  ok (record h {
    prior_witnesses =
        epoch p.issued_at p.witnesses (text_eq p.previous_digest genesis) p.prior_witnesses;
  })

unfoldable pub breaks_policy : History → Bytes → ℕ → Bool
unfolding valid_digest
breaks_policy h print now =
    not (text_eq h.api_version api_version)
    || not (text_eq h.kind (text "KeyHistory"))
    || not (text_eq h.root_fingerprint print)
    || h.issued_at == 0
    || ltb (now + five_minutes) h.issued_at
    || not (valid_digest h.genesis_checkpoint_digest false)
    || not (h.witness_quorum == 2)
    || not (h.outage_grace_seconds == 3600)
    || not (length h.witnesses == 3)

-- The tests of a history whose signature holds.
unfoldable pub accept : Crypto → Library → Bytes → Option History → ℕ → History → Result History
unfolding breaks_policy check_link check_delegations check_witnesses extend
accept c l print previous now h = do
  reject_if (breaks_policy h print now) (message "key history violates pinned MVP bootstrap policy")
  check_link c l h previous
  roles ← check_delegations c l h.issued_at (print ∷ []) [] h.delegations
  check_witnesses roles [] [] h.witnesses
  extend c l h previous

unfoldable pub verify_history :
    Crypto → Library → Envelope → Bytes → Key → Option History → ℕ → Result History
unfolding accept verify fingerprint
verify_history c l envelope root_id root previous now = do
  b ← verify c envelope ((root_id, some root) ∷ [])
  h ← l.decode_strict b
  print ← fingerprint c root
  accept c l print previous now h
