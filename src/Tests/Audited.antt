-- ===== src/Tests/Audited.antt =====
-- Runs of the signatures and of the audit log.
use science_ladder.Base.{
  ℕ, zero, suc, ◌%◌, ◌≡◌, ◌≢◌, refl, true, none, some, List, [], ◌∷◌, ◌++◌, Bytes, text, text_eq,
  length, ok, err, fault,
}
use science_ladder.Base.Int.{pos}
use science_ladder.Base.{In}
use science_ladder.Signing.{
  Crypto, Keys, Signature, Envelope, verify, pae, is_trusted, check_signatures, lookup,
  signed_payload_type,
}
use science_ladder.Signing.Trust.{signed_bytes, verify-trusted}
use science_ladder.Signing.{Key}
use science_ladder.Audit.Merkle.{
  event_digest, sequence, merkle_root, genesis, hash, hex, valid_digest, unhex, all_lower, leaves,
  tree,
}
use science_ladder.Audit.Checkpoint.{
  Event, Checkpoint, Codec, build, chain, start_after, digests_of, canonical_digest,
}
use science_ladder.Audit.Checkpoint.Log.{IsHead, build-IsHead, build-IsHead_append}
use science_ladder.Audit.Quorum.{
  Operators, verify_quorum, check_operators, count_witnesses, count_signatures, count_signature,
  fingerprint,
}
use science_ladder.Audit.Quorum.Votes.{Vote, verify_quorum_lem}
use science_ladder.Ticks.{to_string, digits, set_string, unsigned, all_digits, value}

abbrev zeros : ℕ → Bytes
zeros zero = []
zeros (suc n) = 0 ∷ zeros n

-- Keys that sign by their own bytes, and a hash of the length.
abbrev crypto : Crypto
crypto = record {
  sha256 = λ b. (length b % 256) ∷ zeros 31;
  decode_base64 = λ b. some b;
  canonical_json = λ b. ok b;
  verify_p256 = λ key hash sig. text_eq key sig;
  marshal_key = λ key. some key;
}

abbrev codec : Codec
codec = record { marshal = λ cp. ok cp.to_sequence; decode_strict = λ b. err fault }

abbrev signed_by : Bytes → Bytes → Envelope
signed_by id key = record {
  payload_type = signed_payload_type;
  payload = text "{}";
  signatures = record { key_id = id; sig = key } ∷ [];
}

abbrev key_ring : Keys
key_ring =
    (text "w1", some (text "k"))
    ∷ (text "w2", some (text "kk"))
    ∷ (text "w3", some (text "kkk"))
    ∷ []

abbrev three : Operators
three = (text "w1", text "ann") ∷ (text "w2", text "bob") ∷ (text "w3", text "eve") ∷ []

verifies : verify crypto (signed_by (text "w1") (text "k")) key_ring ≡ ok (text "{}")
unfolding verify check_signatures is_trusted lookup text_eq
verifies = refl

verify-trusted_example :
    (signed_payload_type ≡ text "application/vnd.science-ladder.v1+json")
    × (crypto.decode_base64 (text "{}") ≡ some (text "{}"))
    × (crypto.canonical_json (text "{}") ≡ ok (text "{}"))
    × (s : Signature) × (key : Key) × (sig : Bytes) × In s
        (signed_by (text "w1") (text "k")).signatures
    × In (s.key_id, some key) key_ring
    × (crypto.decode_base64 s.sig ≡ some sig)
    × (crypto.verify_p256 key (crypto.sha256 (signed_bytes (text "{}"))) sig ≡ true)
verify-trusted_example =
    verify-trusted crypto (signed_by (text "w1") (text "k")) key_ring (text "{}") verifies

abbrev votes : List Envelope
votes = signed_by (text "w1") (text "k") ∷ signed_by (text "w3") (text "kkk") ∷ []

has_quorum :
    verify_quorum crypto (signed_by (text "p") (text "q")) votes key_ring three (pos 2) ≡ ok tt
unfolding verify_quorum check_operators count_witnesses count_signatures count_signature fingerprint
    hash hex verify check_signatures is_trusted lookup text_eq pae to_string digits
has_quorum = refl

verify_quorum_lem_example :
    (a : Bytes) × (b : Bytes) × Vote crypto key_ring three (signed_by (text "p") (text "q")) votes a
    × Vote crypto key_ring three (signed_by (text "p") (text "q")) votes b
    × (a ≢ b)
verify_quorum_lem_example =
    verify_quorum_lem crypto key_ring three (signed_by (text "p") (text "q")) votes (pos 2)
      has_quorum

reads_number : sequence (text "12") ≡ ok 12
unfolding sequence text_eq set_string unsigned all_digits value to_string digits
reads_number = refl

abbrev many : ℕ → ℕ → Bytes
many zero c = []
many (suc n) c = c ∷ many n c

abbrev digest_with : Bytes → Bytes
digest_with start = text "sha256:" ++ start ++ many 62 b'0'

abbrev event_1 : Event
event_1 = record {
  sequence = text "1";
  kind = text "submission";
  payload = text "{}";
  previous_digest = genesis;
  digest = digest_with (text "15");
}

abbrev event_2 : Event
event_2 = record {
  sequence = text "2";
  kind = text "submission";
  payload = text "{}";
  previous_digest = digest_with (text "15");
  digest = digest_with (text "55");
}

abbrev checkpoint_1 : Checkpoint
checkpoint_1 = record {
  api_version = text "science-ladder/v1";
  kind = text "AuditCheckpoint";
  log_id = text "log";
  from_sequence = text "1";
  to_sequence = text "1";
  previous_checkpoint_digest = genesis;
  previous_event_digest = genesis;
  last_event_digest = digest_with (text "15");
  merkle_root = digest_with (text "21");
  issued_at = 5;
}

abbrev checkpoint_2 : Checkpoint
checkpoint_2 = record {
  api_version = text "science-ladder/v1";
  kind = text "AuditCheckpoint";
  log_id = text "log";
  from_sequence = text "2";
  to_sequence = text "2";
  previous_checkpoint_digest = digest_with (text "01");
  previous_event_digest = digest_with (text "15");
  last_event_digest = digest_with (text "55");
  merkle_root = digest_with (text "21");
  issued_at = 6;
}

built_1 : build crypto codec (text "log") (event_1 ∷ []) none 5 ≡ ok (some checkpoint_1)
unfolding build chain start_after digests_of canonical_digest event_digest merkle_root leaves tree
    hash hex valid_digest unhex all_lower sequence text_eq set_string unsigned all_digits value
    to_string digits
built_1 = refl

built_2 :
    build crypto codec (text "log") (event_2 ∷ []) (some checkpoint_1) 6 ≡ ok (some checkpoint_2)
unfolding build chain start_after digests_of canonical_digest event_digest merkle_root leaves tree
    hash hex valid_digest unhex all_lower sequence text_eq set_string unsigned all_digits value
    to_string digits
built_2 = refl

build-IsHead_append_example : IsHead crypto (event_1 ∷ event_2 ∷ []) checkpoint_2
build-IsHead_append_example =
    build-IsHead_append crypto codec (text "log") (event_1 ∷ []) (event_2 ∷ []) checkpoint_1 6
      checkpoint_2 (build-IsHead crypto codec (text "log") (event_1 ∷ []) 5 checkpoint_1 built_1)
      built_2
