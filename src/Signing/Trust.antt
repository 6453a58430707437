-- ===== src/Signing/Trust.antt =====
-- What a verified envelope carries.
use science_ladder.Base.{
  is_in, ◌≡◌, ◌⊎◌, inl, inr, refl, sym, ap, ◌∙◌, Bool, true, false, Option, none, some, List, [],
  ◌∷◌, ◌++◌, arith, Bytes, text, length, text_eq, text_eq→eq, Result, ok, err, reject_if, >>=-eq-ok,
  In, first, later, Bool-cases, some_inj, if_true, if_false, subst,
}
use science_ladder.Base.Int.{pos}
use science_ladder.Ticks.{to_string, digits}
use science_ladder.Signing.{
  Key, Keys, Signature, Envelope, Crypto, lookup, test_signature, is_trusted, check_signatures,
  is_canonical, verify, pae, signed_payload_type,
}

-- A signature of the list is trusted, or one was before.
check_signatures-trusted :
    (c : Crypto) (keys : Keys) (hash : Bytes) (seen : List Bytes) (valid : Bool)
    (ss : List Signature) {u : Unit {0}}
    → check_signatures c keys hash seen valid ss ≡ ok u
    → (valid ≡ true) ⊎ ((s : Signature) × In s ss × (is_trusted c keys hash s ≡ true))
unfolding check_signatures
check_signatures-trusted c keys hash seen true ss h = inl refl
check_signatures-trusted c keys hash seen false [] h = cc
check_signatures-trusted c keys hash seen false (s ∷ ss) h =
    let (_, _, more) = >>=-eq-ok (reject_if (is_in s.key_id seen) _) _ h in
    elim (check_signatures-trusted c keys hash (s.key_id ∷ seen) (is_trusted c keys hash s) ss
      more) [ inl t ↦ inr (s, first, t) | inr (t, i, p) ↦ inr (t, later i, p) ]

-- What a map holds under a key is among its entries.
pub lookup-In {ℓ} :
    {A : Type ℓ} (k : Bytes) (entries : List (Bytes × A)) {a : A}
    → lookup k entries ≡ some a
    → In (k, a) entries
unfolding lookup
lookup-In k [] h = cc
lookup-In {A} k ((j, b) ∷ rest) {a} h = elim (Bool-cases (text_eq j k)) [
  | inl e ↦
      subst (λ (i : Bytes). In (i, a) ((j, b) ∷ rest)) (text_eq→eq j k e)
        (subst (λ (c : A). In (j, c) ((j, b) ∷ rest)) (some_inj (if_true _ _ _ e h)) first)
  | inr e ↦ later (lookup-In k rest (if_false _ _ _ e h))
]

-- A signature that is trusted verifies under the key of the set that it names.
trusted-key :
    (c : Crypto) (keys : Keys) (hash : Bytes) (s : Signature)
    → is_trusted c keys hash s ≡ true
    → (key : Key) × (sig : Bytes) × In (s.key_id, some key) keys
      × (c.decode_base64 s.sig ≡ some sig)
      × (c.verify_p256 key hash sig ≡ true)
unfolding is_trusted
trusted-key c keys hash s h = of_key (lookup s.key_id keys) refl h
  where
    of_sig :
        (key : Key) (o : Option Bytes)
        → In (s.key_id, some key) keys
        → c.decode_base64 s.sig ≡ o
        → test_signature c (some key) hash o ≡ true
        → (key : Key) × (sig : Bytes) × In (s.key_id, some key) keys
          × (c.decode_base64 s.sig ≡ some sig)
          × (c.verify_p256 key hash sig ≡ true)
    of_sig key none i e t = cc
    of_sig key (some sig) i e t = (key, sig, i, e, t)

    of_key :
        (o : Option (Option Key))
        → lookup s.key_id keys ≡ o
        → (elim o [ none ↦ false | some key ↦ test_signature c key hash (c.decode_base64 s.sig) ])
          ≡ true
        → (key : Key) × (sig : Bytes) × In (s.key_id, some key) keys
          × (c.decode_base64 s.sig ≡ some sig)
          × (c.verify_p256 key hash sig ≡ true)
    of_key none e t = cc
    of_key (some none) e t = cc
    of_key (some (some key)) e t =
        of_sig key (c.decode_base64 s.sig) (lookup-In s.key_id keys e) refl t

canonical-is : (payload : Bytes) (r : Result Bytes) → is_canonical payload r ≡ true → r ≡ ok payload
canonical-is payload (err e) h = cc
canonical-is payload (ok b) h = ap ok (sym (text_eq→eq payload b h))

verify_parts :
    (c : Crypto) (e : Envelope) (keys : Keys) (payload : Bytes)
    → verify c e keys ≡ ok payload
    → (text_eq e.payload_type signed_payload_type ≡ true)
      × (c.decode_base64 e.payload ≡ some payload)
      × (is_canonical payload (c.canonical_json payload) ≡ true)
      × (check_signatures c keys (c.sha256 (pae e.payload_type payload)) [] false e.signatures
          ≡ ok tt)
unfolding verify
verify_parts c e keys payload h = (ground arith, ground arith, ground arith, ground arith)

-- The bytes that are signed for a payload of the one type that is accepted.
abbrev pub signed_bytes : Bytes → Bytes
signed_bytes payload =
    text "DSSEv1 38 application/vnd.science-ladder.v1+json "
    ++ to_string (pos (length payload))
    ++ text " "
    ++ payload

pae-signed_bytes : (payload : Bytes) → pae signed_payload_type payload ≡ signed_bytes payload
unfolding pae to_string digits
pae-signed_bytes payload = refl

-- An envelope that verifies under a set of keys has the payload type of the protocol and carries a
-- payload that is its own canonical form, and one of its signatures names a key of the set that
-- accepts it for the bytes `DSSEv1 38 application/vnd.science-ladder.v1+json`, the length of the
-- payload and the payload.
pub verify-trusted :
    (c : Crypto) (e : Envelope) (keys : Keys) (payload : Bytes)
    → verify c e keys ≡ ok payload
    → (e.payload_type ≡ text "application/vnd.science-ladder.v1+json")
      × (c.decode_base64 e.payload ≡ some payload)
      × (c.canonical_json payload ≡ ok payload)
      × (s : Signature) × (key : Key) × (sig : Bytes) × In s e.signatures
      × In (s.key_id, some key) keys
      × (c.decode_base64 s.sig ≡ some sig)
      × (c.verify_p256 key (c.sha256 (signed_bytes payload)) sig ≡ true)
verify-trusted c e keys payload h =
    let (typed, read, canonical, checked) = verify_parts c e keys payload h in
    let is_type = text_eq→eq e.payload_type signed_payload_type typed in
    elim (check_signatures-trusted c keys _ [] false e.signatures checked) [
      | inl n ↦ absurd (ground (arith, n))
      | inr (s, among, trusted) ↦
          let (key, sig, held, decoded, good) = trusted-key c keys _ s trusted in
          let bytes = ap (λ (t : Bytes). pae t payload) is_type ∙ pae-signed_bytes payload in
          (
            is_type,
            read,
            canonical-is payload (c.canonical_json payload) canonical,
            s,
            key,
            sig,
            among,
            held,
            decoded,
            subst (λ (b : Bytes). c.verify_p256 key (c.sha256 b) sig ≡ true) bytes good,
          )
    ]
