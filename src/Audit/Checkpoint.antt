-- ===== src/Audit/Checkpoint.antt =====
-- internal/audit/checkpoint.go: `Build` and `VerifyCheckpoint`. A time is a number of nanoseconds,
-- 0 for the zero time.
pub mod Log
use science_ladder.Base.{
  ℕ, ◌+◌, ◌-◌, ◌/◌, ◌^◌, Bool, false, ◌||◌, not, Option, none, some, List, [], ◌∷◌, ltb, ◌==◌,
  Bytes, text, is_empty, text_eq, length, Result, ok, err, message, ◌>>=◌, ◌>>◌, reject_if,
}
use science_ladder.Base.Int.{pos}
use science_ladder.Ticks.{to_string}
use science_ladder.Signing.{Crypto, Envelope, Keys, verify}
use science_ladder.Audit.Merkle.{genesis, hash, event_digest, sequence, merkle_root}

pub record Event : Type 0 where
  pub sequence : Bytes
  pub kind : Bytes
  pub payload : Bytes
  pub previous_digest : Bytes
  pub digest : Bytes

pub record Checkpoint : Type 0 where
  pub api_version : Bytes
  pub kind : Bytes
  pub log_id : Bytes
  pub from_sequence : Bytes
  pub to_sequence : Bytes
  pub previous_checkpoint_digest : Bytes
  pub previous_event_digest : Bytes
  pub last_event_digest : Bytes
  pub merkle_root : Bytes
  pub issued_at : ℕ

-- `json.Marshal` and `DecodeStrict` of a checkpoint.
pub record Codec : Type 0 where
  pub marshal : Checkpoint → Result Bytes
  pub decode_strict : Bytes → Result Checkpoint

abbrev pub api_version : Bytes
api_version = text "science-ladder/v1"

abbrev pub max_int64 : ℕ
max_int64 = 2 ^ 63 - 1

unfoldable pub canonical_digest : Crypto → Codec → Checkpoint → Result Bytes
canonical_digest c codec value = do
  b ← codec.marshal value
  canonical ← c.canonical_json b
  ok (hash c canonical)

-- Where a checkpoint starts: the last sequence number, and the digests before it.
pub record Start : Type 0 where
  pub last : ℕ
  pub prior_checkpoint : Bytes
  pub prior_event : Bytes

unfoldable pub start_after : Crypto → Codec → Bytes → ℕ → Option Checkpoint → Result Start
unfolding canonical_digest
start_after c codec log_id at none =
    ok (record { last = 0; prior_checkpoint = genesis; prior_event = genesis })
start_after c codec log_id at (some previous) = do
  last ← sequence previous.to_sequence
  reject_if (last == max_int64) (message "sequence exhausted")
  digest ← canonical_digest c codec previous
  reject_if (not (text_eq previous.log_id log_id) || ltb at previous.issued_at)
      (message "checkpoint changed log identity or regressed time")
  ok (record { last = last; prior_checkpoint = digest; prior_event = previous.last_event_digest })

abbrev pub is_number : ℕ → Result ℕ → Bool
is_number n (ok m) = m == n
is_number n (err e) = false

abbrev pub is_digest : Bytes → Result Bytes → Bool
is_digest d (ok e) = text_eq e d
is_digest d (err e) = false

-- The loop over the events: the last digest and the last sequence number. A number past the int64
-- wraps below 0 in the source, and is refused there as it is here.
unfoldable pub chain : Crypto → ℕ → Bytes → Bytes → List Event → Result (Bytes × Bytes)
unfolding event_digest
chain c n last to [] = ok (last, to)
chain c n last to (e ∷ es) = do
  reject_if (not (is_number n (sequence e.sequence))) (message "audit sequence gap or overflow")
  reject_if
      (not (is_digest e.digest (event_digest c last e.kind e.payload))
        || not (text_eq e.previous_digest last))
      (message "broken audit event hash chain")
  chain c (n + 1) e.digest e.sequence es

unfoldable pub digests_of : List Event → List Bytes
digests_of [] = []
digests_of (e ∷ es) = e.digest ∷ digests_of es

abbrev pub checkpoint_of : Bytes → ℕ → Start → Bytes × Bytes → Option Bytes → Option Checkpoint
checkpoint_of log_id at s (last, to) none = none
checkpoint_of log_id at s (last, to) (some root) = some (record {
  api_version = api_version;
  kind = text "AuditCheckpoint";
  log_id = log_id;
  from_sequence = to_string (pos (s.last + 1));
  to_sequence = to;
  previous_checkpoint_digest = s.prior_checkpoint;
  previous_event_digest = s.prior_event;
  last_event_digest = last;
  merkle_root = root;
  issued_at = at;
})

-- `none` means that the fuel of the Merkle tree ran out.
unfoldable pub build :
    Crypto → Codec → Bytes → List Event → Option Checkpoint → ℕ → Result (Option Checkpoint)
unfolding chain digests_of start_after
build c codec log_id events previous at = do
  reject_if (is_empty log_id || ltb 128 (length log_id) || at == 0)
      (message "log identity and timestamp required")
  s ← start_after c codec log_id at previous
  ends ← chain c (s.last + 1) s.prior_event (to_string (pos s.last)) events
  root ← merkle_root c (digests_of events)
  ok (checkpoint_of log_id at s ends root)

-- `a, _ := CanonicalDigest(…)`: an error leaves the empty text.
abbrev pub or_empty : Result Bytes → Bytes
or_empty (ok d) = d
or_empty (err e) = []

abbrev pub five_minutes : ℕ
five_minutes = 300000000000

abbrev pub agrees : Crypto → Codec → Checkpoint → Option Checkpoint → Result (Option Checkpoint)
agrees c codec cp none = ok none
agrees c codec cp (some expected) = do
  reject_if
      (not (
        text_eq (or_empty (canonical_digest c codec cp))
          (or_empty (canonical_digest c codec expected))))
      (message "checkpoint interval, chain link, or Merkle root differs from observed events")
  ok (some cp)

unfoldable pub verify_checkpoint :
    Crypto
    → Codec
    → Envelope
    → Keys
    → List Event
    → Option Checkpoint
    → ℕ
    → Result (Option Checkpoint)
unfolding build verify
verify_checkpoint c codec envelope keys events previous now = do
  b ← verify c envelope keys
  cp ← codec.decode_strict b
  reject_if
      (not (text_eq cp.api_version api_version)
        || not (text_eq cp.kind (text "AuditCheckpoint"))
        || ltb (now + five_minutes) cp.issued_at)
      (message "unsupported or future checkpoint")
  expected ← build c codec cp.log_id events previous cp.issued_at
  agrees c codec cp expected
