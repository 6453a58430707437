-- ===== src/Audit/Quorum.antt =====
-- internal/audit/checkpoint.go: `VerifyQuorum`, and `Fingerprint` of history.go.
pub mod Votes
use science_ladder.Base.{
  is_in, ◌-◌, Bool, ◌&&◌, ◌||◌, not, Option, none, some, List, [], ◌∷◌, ◌==◌, if◌then◌else◌, Bytes,
  is_empty, text_eq, length, Result, ok, err, message, ◌>>=◌, ◌>>◌, reject_if, is_ok,
}
use science_ladder.Base.Int.{ℤ, pos, eqb_ℤ, ltb_ℤ}
use science_ladder.Signing.{Crypto, Key, Keys, Signature, Envelope, lookup, verify}
use science_ladder.Audit.Merkle.{hash}

abbrev pub fingerprint_of : Crypto → Option Bytes → Result Bytes
fingerprint_of c none = err (message "P-256 public key required")
fingerprint_of c (some der) = ok (hash c der)

unfoldable pub fingerprint : Crypto → Key → Result Bytes
fingerprint c key = fingerprint_of c (c.marshal_key key)

-- The operator of each witness key; a key stands in the map once.
abbrev pub Operators : Type 0
Operators = List (Bytes × Bytes)

abbrev pub add_known : Result Bytes → List Bytes → Result (List Bytes)
add_known (err e) prints = err (message "active witnesses must use distinct valid keys")
add_known (ok p) prints =
    if is_in p prints
    then err (message "active witnesses must use distinct valid keys")
    else ok (p ∷ prints)

abbrev pub add_print : Crypto → Option (Option Key) → List Bytes → Result (List Bytes)
add_print c (some (some key)) prints = add_known (fingerprint c key) prints
add_print c _ prints = ok prints

-- The loop over the operators, in the order in which the map hands them out.
unfoldable pub check_operators :
    Crypto → Keys → Operators → List Bytes → List Bytes → Result (Unit {0})
unfolding fingerprint lookup
check_operators c keys [] admins prints = ok tt
check_operators c keys ((id, admin) ∷ rest) admins prints = do
  reject_if (is_empty id || is_empty admin || is_in admin admins)
      (message "witnesses must have three distinct configured operators")
  prints' ← add_print c (lookup id keys) prints
  check_operators c keys rest (admin ∷ admins) prints'

abbrev pub single : Envelope → Signature → Envelope
single e s = record { payload_type = e.payload_type; payload = e.payload; signatures = s ∷ [] }

-- `seen[op] = true`
abbrev pub add_seen : Bytes → List Bytes → List Bytes
add_seen op seen = if is_in op seen then seen else op ∷ seen

abbrev pub add_vote : Option Bytes → List Bytes → List Bytes
add_vote none seen = seen
add_vote (some op) seen = if is_empty op then seen else add_seen op seen

abbrev pub count_known :
    Crypto → Keys → Operators → Envelope → Signature → Option (Option Key) → List Bytes → List Bytes
count_known c keys operators e s none seen = seen
count_known c keys operators e s (some key) seen =
    if is_ok (verify c (single e s) ((s.key_id, key) ∷ []))
    then add_vote (lookup s.key_id operators) seen
    else seen

-- The signature by a known key counts for the key's operator.
unfoldable pub count_signature :
    Crypto → Keys → Operators → Envelope → Signature → List Bytes → List Bytes
unfolding verify lookup
count_signature c keys operators e s seen =
    count_known c keys operators e s (lookup s.key_id keys) seen

unfoldable pub count_signatures :
    Crypto → Keys → Operators → Envelope → List Signature → List Bytes → List Bytes
unfolding count_signature
count_signatures c keys operators e [] seen = seen
count_signatures c keys operators e (s ∷ ss) seen =
    count_signatures c keys operators e ss (count_signature c keys operators e s seen)

abbrev pub same_payload : Envelope → Envelope → Bool
same_payload e f = text_eq e.payload_type f.payload_type && text_eq e.payload f.payload

unfoldable pub count_witnesses :
    Crypto → Keys → Operators → Envelope → List Envelope → List Bytes → List Bytes
unfolding count_signatures
count_witnesses c keys operators p [] seen = seen
count_witnesses c keys operators p (e ∷ es) seen =
    count_witnesses c keys operators p es
      (if same_payload e p then count_signatures c keys operators e e.signatures seen else seen)

unfoldable pub verify_quorum :
    Crypto → Envelope → List Envelope → Keys → Operators → ℤ → Result (Unit {0})
unfolding check_operators count_witnesses
verify_quorum c p witnesses keys operators quorum = do
  reject_if (not (eqb_ℤ quorum (pos 2)) || not (length operators == 3))
      (message "MVP requires three witnesses and a 2-of-3 quorum")
  check_operators c keys operators [] []
  reject_if (ltb_ℤ (pos (length (count_witnesses c keys operators p witnesses []))) quorum)
      (message "witness quorum unavailable")
