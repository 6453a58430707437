-- ===== src/Audit/Quorum/Votes.antt =====
-- What a quorum of witnesses is.
use science_ladder.Base.{
  is_in, ◌≤◌, ◌≡◌, ◌≢◌, inl, inr, refl, sym, true, false, Option, none, some, List, [], ◌∷◌, arith,
  Bool-cases, Bytes, is_empty, text_eq, text_eq_refl, length, ok, is_ok, subst,
}
use science_ladder.Base.{In, first, later}
use science_ladder.Base.Int.{ℤ}
use science_ladder.Signing.{Crypto, Key, Keys, Signature, Envelope, lookup, verify}
use science_ladder.Audit.Quorum.{
  Operators, single, same_payload, add_seen, add_vote, count_known, count_signature,
  count_signatures, count_witnesses, verify_quorum,
}

is_in_first : (a b : Bytes) (seen : List Bytes) → is_in a (b ∷ seen) ≡ false → a ≢ b
is_in_first a b seen h e =
    ground (arith, subst (λ (x : Bytes). text_eq b x ≡ true) (sym e) (text_eq_refl b), h)

module _ (c : Crypto) (keys : Keys) (operators : Operators) (p : Envelope)
    (witnesses : List Envelope) where
  -- One of the envelopes carries the platform's payload and, among its signatures, one that
  -- verifies under a given key, which belongs to the operator.
  pub record Vote (op : Bytes) : Type 0 where
    pub envelope : Envelope
    pub signature : Signature
    pub key : Option Key
    pub among : In envelope witnesses
    pub same : same_payload envelope p ≡ true
    pub carried : In signature envelope.signatures
    pub given : lookup signature.key_id keys ≡ some key
    pub verified :
        is_ok (verify c (single envelope signature) ((signature.key_id, key) ∷ [])) ≡ true
    pub operator : lookup signature.key_id operators ≡ some op

  -- A list of operators without repetition, each of which has a vote.
  data Tally : List Bytes → Type 0 where
    empty : Tally []
    vote :
        {op : Bytes} {seen : List Bytes}
        → Vote op
        → is_in op seen ≡ false
        → Tally seen
        → Tally (op ∷ seen)

  module _ (e : Envelope) (among : In e witnesses) (same : same_payload e p ≡ true) where
    add_seen-Tally :
        (op : Bytes) (seen : List Bytes) → Vote op → Tally seen → Tally (add_seen op seen)
    add_seen-Tally op seen v t = elim (Bool-cases (is_in op seen)) [
      | inl h ↦ rw h t
      | inr h ↦ rw h (vote v h t)
    ]

    add_vote-Tally :
        (o : Option Bytes) (seen : List Bytes)
        → ((op : Bytes) → o ≡ some op → Vote op)
        → Tally seen
        → Tally (add_vote o seen)
    add_vote-Tally none seen v t = t
    add_vote-Tally (some op) seen v t = elim (Bool-cases (is_empty op)) [
      | inl h ↦ rw h t
      | inr h ↦ rw h (add_seen-Tally op seen (v op refl) t)
    ]

    count_known-Tally :
        (s : Signature) (o : Option (Option Key)) (seen : List Bytes)
        → In s e.signatures
        → lookup s.key_id keys ≡ o
        → Tally seen
        → Tally (count_known c keys operators e s o seen)
    count_known-Tally s none seen i g t = t
    count_known-Tally s (some key) seen i g t =
        elim (Bool-cases (is_ok (verify c (single e s) ((s.key_id, key) ∷ [])))) [
          | inl h ↦ rw h (
              add_vote-Tally (lookup s.key_id operators) seen
                (λ op o. record {
                  envelope = e;
                  signature = s;
                  key = key;
                  among = among;
                  same = same;
                  carried = i;
                  given = g;
                  verified = h;
                  operator = o;
                })
                t)
          | inr h ↦ rw h t
        ]

    count_signatures-Tally :
        (ss : List Signature) (seen : List Bytes)
        → ((s : Signature) → In s ss → In s e.signatures)
        → Tally seen
        → Tally (count_signatures c keys operators e ss seen)
    unfolding count_signatures count_signature
    count_signatures-Tally [] seen sub t = t
    count_signatures-Tally (s ∷ ss) seen sub t =
        count_signatures-Tally ss (count_signature c keys operators e s seen)
          (λ x i. sub x (later i))
          (count_known-Tally s (lookup s.key_id keys) seen (sub s first) refl t)

  count_witnesses-Tally :
      (es : List Envelope) (seen : List Bytes)
      → ((e : Envelope) → In e es → In e witnesses)
      → Tally seen
      → Tally (count_witnesses c keys operators p es seen)
  unfolding count_witnesses
  count_witnesses-Tally [] seen sub t = t
  count_witnesses-Tally (e ∷ es) seen sub t = elim (Bool-cases (same_payload e p)) [
    | inl h ↦ rw h (
        count_witnesses-Tally es (count_signatures c keys operators e e.signatures seen)
          (λ x i. sub x (later i))
          (count_signatures-Tally e (sub e first) h e.signatures seen (λ x i. i) t))
    | inr h ↦ rw h (count_witnesses-Tally es seen (λ x i. sub x (later i)) t)
  ]

  abbrev TwoVotes : Type 0
  TwoVotes = (a : Bytes) × (b : Bytes) × Vote a × Vote b × (a ≢ b)

  Tally-two : (seen : List Bytes) → Tally seen → 2 ≤ length seen → TwoVotes
  Tally-two [] t h = absurd (omega (arith, h))
  Tally-two (a ∷ []) t h = absurd (omega (arith, h))
  Tally-two (a ∷ b ∷ seen) (vote va out (vote vb _ _)) h = (a, b, va, vb, is_in_first a b seen out)

  counted :
      (quorum : ℤ)
      → verify_quorum c p witnesses keys operators quorum ≡ ok tt
      → 2 ≤ length (count_witnesses c keys operators p witnesses [])
  unfolding verify_quorum
  counted quorum h = ground arith

  -- Where a quorum is verified, two different operators have each signed the platform's payload:
  -- one of the witness envelopes carries the payload and a signature that verifies under the given
  -- key of that operator.
  pub verify_quorum_lem :
      (quorum : ℤ)
      → verify_quorum c p witnesses keys operators quorum ≡ ok tt
      → (a : Bytes) × (b : Bytes) × Vote a × Vote b × (a ≢ b)
  verify_quorum_lem quorum h =
      Tally-two (count_witnesses c keys operators p witnesses [])
        (count_witnesses-Tally witnesses [] (λ x i. i) empty) (counted quorum h)
