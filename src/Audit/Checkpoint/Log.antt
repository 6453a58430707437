-- ===== src/Audit/Checkpoint/Log.antt =====
-- What a checkpoint says of the events that it covers.
use science_ladder.Base.{
  ℕ, ◌+◌, ◌≡◌, inl, inr, refl, sym, ap, ◌∙◌, true, Option, none, some, List, [], ◌∷◌, ◌++◌, arith,
  some_inj, Result-cases, Bytes, text_eq, text_eq→eq, length, Result, ok, err, subst,
}
use science_ladder.Base.{length-append}
use science_ladder.Base.Int.{pos}
use science_ladder.Ticks.{to_string, set_string}
use science_ladder.Ticks.RoundTrip.{set_string-to_string}
use science_ladder.Signing.{Crypto}
use science_ladder.Audit.Merkle.{genesis, event_digest, sequence}
use science_ladder.Audit.Merkle.Shape.{sequence_lem}
use science_ladder.Audit.Checkpoint.{
  Event, Checkpoint, Codec, Start, start_after, chain, is_number, is_digest, build,
}

-- Events with the numbers from n on, each of which names the digest of the one before it and
-- carries its own; the last digest comes last.
pub data Linked (c : Crypto) : ℕ → Bytes → List Event → Bytes → Type 0 where
  end : {n : ℕ} {d : Bytes} → Linked c n d [] d
  link :
      {n : ℕ} {d last : Bytes} {e : Event} {es : List Event}
      → to_string (pos n) ≡ e.sequence
      → e.previous_digest ≡ d
      → event_digest c d e.kind e.payload ≡ ok e.digest
      → Linked c (n + 1) e.digest es last
      → Linked c n d (e ∷ es) last

is_number_lem : (s : Bytes) (n : ℕ) → is_number n (sequence s) ≡ true → to_string (pos n) ≡ s
is_number_lem s n h = elim (Result-cases (sequence s)) [
  | inl r ↦ (sequence_lem s n (ground (arith, r.1, h))).0
  | inr r ↦ ground (arith, r.1, h)
]

is_digest_lem : (r : Result Bytes) (d : Bytes) → is_digest d r ≡ true → r ≡ ok d
is_digest_lem (ok e) d h = ap ok (text_eq→eq e d h)
is_digest_lem (err e) d h = cc

chain_parts :
    (c : Crypto) (n : ℕ) (d to : Bytes) (e : Event) (es : List Event) {ends : Bytes × Bytes}
    → chain c n d to (e ∷ es) ≡ ok ends
    → (is_number n (sequence e.sequence) ≡ true)
      × (is_digest e.digest (event_digest c d e.kind e.payload) ≡ true)
      × (text_eq e.previous_digest d ≡ true)
      × (chain c (n + 1) e.digest e.sequence es ≡ ok ends)
unfolding chain
chain_parts c n d to e es h = (ground arith, ground arith, ground arith, ground arith)

chain-Linked :
    (c : Crypto) (n : ℕ) (d : Bytes) (to : Bytes) (events : List Event) (last to' : Bytes)
    → chain c n d to events ≡ ok (last, to')
    → Linked c n d events last
unfolding chain
chain-Linked c n d to [] last to' h =
    subst (λ (x : Bytes). Linked c n d [] x) (ground (arith, h)) end
chain-Linked c n d to (e ∷ es) last to' h =
    let (number, digest, before, more) = chain_parts c n d to e es h in
    link (is_number_lem e.sequence n number) (text_eq→eq e.previous_digest d before)
      (is_digest_lem _ e.digest digest)
      (chain-Linked c (n + 1) e.digest e.sequence es last to' more)

chain_to :
    (c : Crypto) (n : ℕ) (d to : Bytes) (events : List Event) (last to' : Bytes)
    → to_string (pos n) ≡ to
    → chain c (n + 1) d to events ≡ ok (last, to')
    → to_string (pos (n + length events)) ≡ to'
unfolding chain
chain_to c n d to [] last to' p h =
    subst (λ (k : ℕ). to_string (pos k) ≡ to') (omega arith) (p ∙ ground (arith, h))
chain_to c n d to (e ∷ es) last to' p h =
    let (number, digest, before, more) = chain_parts c (n + 1) d to e es h in
    subst (λ (k : ℕ). to_string (pos k) ≡ to') (omega arith)
      (chain_to c (n + 1) e.digest e.sequence es last to' (is_number_lem e.sequence (n + 1) number)
        more)

Linked-append :
    (c : Crypto) (xs ys : List Event) {n : ℕ} {d e last : Bytes}
    → Linked c n d xs e
    → Linked c (n + length xs) e ys last
    → Linked c n d (xs ++ ys) last
Linked-append c [] ys {n} {d} {e} {last} end q =
    subst (λ (k : ℕ). Linked c k d ys last) (omega arith) q
Linked-append c (x ∷ xs) ys {n} {d} {e} {last} (link a b g p) q =
    link a b g (Linked-append c xs ys p (subst (λ (k : ℕ). Linked c k e ys last) (omega arith) q))

-- What a build that succeeds went through.
record Built (c : Crypto) (codec : Codec) (log_id : Bytes) (events : List Event)
    (previous : Option Checkpoint) (at : ℕ) (cp : Checkpoint) : Type 0 where
  start : Start
  ends : Bytes × Bytes
  started : start_after c codec log_id at previous ≡ ok start
  chained : chain c (start.last + 1) start.prior_event (to_string (pos start.last)) events ≡ ok ends
  last_lem : ends.0 ≡ cp.last_event_digest
  to_lem : ends.1 ≡ cp.to_sequence

build_parts :
    (c : Crypto) (codec : Codec) (log_id : Bytes) (events : List Event)
    (previous : Option Checkpoint) (at : ℕ) (cp : Checkpoint)
    → build c codec log_id events previous at ≡ ok (some cp)
    → Built c codec log_id events previous at cp
unfolding build
build_parts c codec log_id events previous at cp h =
    elim (Result-cases (start_after c codec log_id at previous)) [
      | inr e ↦ absurd (ground (arith, e.1, h))
      | inl s ↦
          elim (Result-cases
            (chain c (s.0.last + 1) s.0.prior_event (to_string (pos s.0.last)) events)) [
              | inr e ↦ absurd (ground (arith, s.1, e.1, h))
              | inl t ↦ record {
                start = s.0;
                ends = t.0;
                started = s.1;
                chained = t.1;
                last_lem = ground (arith, s.1, t.1, h);
                to_lem = ground (arith, s.1, t.1, h);
              }
            ]
    ]

-- A checkpoint of a log: it names the number and the digest of the log's last event.
pub data IsHead (c : Crypto) (log : List Event) (cp : Checkpoint) : Type 0 where
  head :
      Linked c 1 genesis log cp.last_event_digest
      → to_string (pos (length log)) ≡ cp.to_sequence
      → IsHead c log cp

pos_inj : {a b : ℕ} → pos a ≡ pos b → a ≡ b
pos_inj h = cc

to_string_inj : (a b : ℕ) → to_string (pos a) ≡ to_string (pos b) → a ≡ b
to_string_inj a b h =
    pos_inj (
      some_inj
        (sym (set_string-to_string (pos a)) ∙ ap set_string h ∙ set_string-to_string (pos b)))

Built-IsHead :
    (c : Crypto) (codec : Codec) (log_id : Bytes) (log events : List Event)
    (previous : Option Checkpoint) (at : ℕ) (cp : Checkpoint)
    (b : Built c codec log_id events previous at cp)
    → b.start.last ≡ length log
    → Linked c 1 genesis log b.start.prior_event
    → IsHead c (log ++ events) cp
Built-IsHead c codec log_id log events previous at cp b n linked =
    let same : b.start.last + 1 ≡ 1 + length log = omega (arith, n) in
    let sum : b.start.last + length events ≡ length (log ++ events) =
      omega (arith, n, length-append log events) in
    let new : Linked c (b.start.last + 1) b.start.prior_event events cp.last_event_digest =
      subst (λ (d : Bytes). Linked c (b.start.last + 1) b.start.prior_event events d) b.last_lem
        (chain-Linked c (b.start.last + 1) b.start.prior_event (to_string (pos b.start.last)) events
          b.ends.0 b.ends.1 b.chained) in
    head
      (Linked-append c log events linked
        (subst (λ (k : ℕ). Linked c k b.start.prior_event events cp.last_event_digest) same new))
      (subst (λ (k : ℕ). to_string (pos k) ≡ cp.to_sequence) sum
        (chain_to c b.start.last b.start.prior_event (to_string (pos b.start.last)) events b.ends.0
            b.ends.1 refl b.chained
          ∙ b.to_lem))

start_parts :
    (c : Crypto) (codec : Codec) (log_id : Bytes) (at : ℕ) (previous : Checkpoint) (s : Start)
    → start_after c codec log_id at (some previous) ≡ ok s
    → (sequence previous.to_sequence ≡ ok s.last) × (previous.last_event_digest ≡ s.prior_event)
unfolding start_after
start_parts c codec log_id at previous s h = (ground arith, ground arith)

-- A checkpoint that is built without a previous one covers a log from the genesis on: its events
-- have the numbers from 1 on, each carries the digest of its own content and names that of the one
-- before it, and the checkpoint names the digest and the number of the last.
pub build-IsHead :
    (c : Crypto) (codec : Codec) (log_id : Bytes) (events : List Event) (at : ℕ) (cp : Checkpoint)
    → build c codec log_id events none at ≡ ok (some cp)
    → IsHead c events cp
unfolding start_after
build-IsHead c codec log_id events at cp h =
    let b = build_parts c codec log_id events none at cp h in
    Built-IsHead c codec log_id [] events none at cp b (ground (arith, b.started))
      (subst (λ (d : Bytes). Linked c 1 genesis [] d) (ground (arith, b.started)) end)

-- Where the previous checkpoint names the last event of a log of linked events, a checkpoint that
-- is built on it names the last event of that log with the new events behind it, which is linked
-- from the genesis on: no number is left out, and none is taken twice.
pub build-IsHead_append :
    (c : Crypto) (codec : Codec) (log_id : Bytes) (log events : List Event) (previous : Checkpoint)
    (at : ℕ) (cp : Checkpoint)
    → IsHead c log previous
    → build c codec log_id events (some previous) at ≡ ok (some cp)
    → IsHead c (log ++ events) cp
build-IsHead_append c codec log_id log events previous at cp (head linked number) h =
    let b = build_parts c codec log_id events (some previous) at cp h in
    let (number', digest) = start_parts c codec log_id at previous b.start b.started in
    let same =
      to_string_inj b.start.last (length log)
        ((sequence_lem previous.to_sequence b.start.last number').0 ∙ sym number) in
    Built-IsHead c codec log_id log events (some previous) at cp b same
      (subst (λ (d : Bytes). Linked c 1 genesis log d) digest linked)
