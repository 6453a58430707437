-- ===== src/Signing.antt =====
-- pkg/protocol/signatures.go: signed envelopes, with the cryptography as a parameter.
pub mod Trust
use science_ladder.Base.{
  is_in, ℕ, ◌+◌, ◌-◌, ◌*◌, ◌/◌, Bool, false, ◌||◌, not, Option, none, some, List, [], ◌∷◌, ◌++◌,
  ltb, if◌then◌else◌, Bytes, text, text_eq, length, Result, ok, err, message, ◌>>=◌, ◌>>◌,
  reject_if,
}
use science_ladder.Base.Int.{pos}
use science_ladder.Ticks.{to_string}

-- A public key, by the bytes of its encoding.
abbrev pub Key : Type 0
Key = Bytes

pub record Signature : Type 0 where
  pub key_id : Bytes
  pub sig : Bytes

pub record Envelope : Type 0 where
  pub payload_type : Bytes
  pub payload : Bytes
  pub signatures : List Signature

-- What the code takes from elsewhere: SHA-256, strict base64, `CanonicalJSON` over the JSON
-- packages, the test of a P-256 signature (key, hash, signature) and the DER encoding of a P-256
-- key, `none` for a key of another kind.
pub record Crypto : Type 0 where
  pub sha256 : Bytes → Bytes
  pub decode_base64 : Bytes → Option Bytes
  pub canonical_json : Bytes → Result Bytes
  pub verify_p256 : Key → Bytes → Bytes → Bool
  pub marshal_key : Key → Option Bytes

-- A Go map from texts. A key of the map may hold `nil`.
unfoldable pub lookup {ℓ} : {A : Type ℓ} → Bytes → List (Bytes × A) → Option A
lookup k [] = none
lookup k ((j, a) ∷ rest) = if text_eq j k then some a else lookup k rest

abbrev pub Keys : Type 0
Keys = List (Bytes × Option Key)

abbrev pub signed_payload_type : Bytes
signed_payload_type = text "application/vnd.science-ladder.v1+json"

abbrev pub max_document_bytes : ℕ
max_document_bytes = 1048576

-- `fmt.Sprintf("DSSEv1 %d %s %d %s", …)`
unfoldable pub pae : Bytes → Bytes → Bytes
pae payload_type payload =
    text "DSSEv1 "
    ++ to_string (pos (length payload_type))
    ++ text " "
    ++ payload_type
    ++ text " "
    ++ to_string (pos (length payload))
    ++ text " "
    ++ payload

abbrev pub test_signature : Crypto → Option Key → Bytes → Option Bytes → Bool
test_signature c (some key) hash (some sig) = c.verify_p256 key hash sig
test_signature c _ hash _ = false

-- A signature by a key that is not trusted counts for nothing.
unfoldable pub is_trusted : Crypto → Keys → Bytes → Signature → Bool
unfolding lookup
is_trusted c keys hash s = elim (lookup s.key_id keys) [
  | none ↦ false
  | some key ↦ test_signature c key hash (c.decode_base64 s.sig)
]

-- The loop over the signatures.
unfoldable pub check_signatures :
    Crypto → Keys → Bytes → List Bytes → Bool → List Signature → Result (Unit {0})
unfolding is_trusted
check_signatures c keys hash seen valid [] =
    reject_if (not valid) (message "no valid trusted receipt signature")
check_signatures c keys hash seen valid (s ∷ ss) = do
  reject_if (is_in s.key_id seen) (message "duplicate signature key")
  check_signatures c keys hash (s.key_id ∷ seen) (valid || is_trusted c keys hash s) ss

abbrev pub decoded : Option Bytes → Result Bytes
decoded none = err (message "invalid envelope payload encoding")
decoded (some b) = ok b

abbrev pub is_canonical : Bytes → Result Bytes → Bool
is_canonical payload (err e) = false
is_canonical payload (ok canonical) = text_eq payload canonical

unfoldable pub verify : Crypto → Envelope → Keys → Result Bytes
unfolding check_signatures pae
verify c e keys = do
  reject_if
      (not (text_eq e.payload_type signed_payload_type)
        || ltb (2 * max_document_bytes) (length e.payload)
        || ltb (length e.signatures) 1
        || ltb 8 (length e.signatures))
      (message "invalid signed envelope")
  payload ← decoded (c.decode_base64 e.payload)
  reject_if (not (is_canonical payload (c.canonical_json payload)))
      (message "receipt payload must be canonical JSON")
  check_signatures c keys (c.sha256 (pae e.payload_type payload)) [] false e.signatures
  ok payload
