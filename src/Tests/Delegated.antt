-- ===== src/Tests/Delegated.antt =====
-- Runs of the key history and of the leases.
use science_ladder.Base.{
  ℕ, zero, suc, ◌%◌, ◌≡◌, refl, true, Option, none, some, [], ◌∷◌, ◌++◌, Bytes, text, text_eq,
  length, ok,
}
use science_ladder.Base.Int.{pos, ◌≤ℤ◌}
use science_ladder.Base.{In, first}
use science_ladder.Signing.{
  Crypto, Envelope, verify, pae, is_trusted, check_signatures, lookup, signed_payload_type,
}
use science_ladder.Audit.Merkle.{hash, hex, valid_digest, unhex, all_lower, genesis}
use science_ladder.Audit.Quorum.{fingerprint}
use science_ladder.Audit.History.{
  Delegation, Membership, nothing, epoch, History, Library, parse_public_key, check_roles,
  check_delegations, check_witnesses, by_id, delegation_digest, keep_delegations, check_link,
  extend, breaks_policy, accept, verify_history,
}
use science_ladder.Audit.History.Keep.{verify_history_keeps}
use science_ladder.Audit.History.Active.{keys_at}
use science_ladder.Ticks.{to_string, digits}
use science_ladder.Lease.{JobLimits, fifteen_minutes, maximum_job_lease, job_lease_duration}
use science_ladder.Base.{◌⊎◌, ◌≤◌, ◌+◌, ◌/◌, true, false}
use science_ladder.Timing.{median_interval_index, target_of}
use science_ladder.Timing.Interval.{covers, median_interval_index_lem}
use science_ladder.Runner.Delegated.{
  Delegated, parse_runner_key, is_bound, check_history, verify_host_delegation,
  verify_host_delegation-Delegated,
}
use science_ladder.Lease.Limits.{job_lease_duration_lem}

abbrev zeros : ℕ → Bytes
zeros zero = []
zeros (suc n) = 0 ∷ zeros n

-- Keys that sign by their own bytes, and a hash of the length.
abbrev crypto : Crypto
crypto = record {
  sha256 = λ b. (length b % 256) ∷ zeros 31;
  decode_base64 = λ b. some b;
  canonical_json = λ b. ok b;
  verify_p256 = λ key hash sig. text_eq key sig;
  marshal_key = λ key. some key;
}

abbrev many : ℕ → ℕ → Bytes
many zero c = []
many (suc n) c = c ∷ many n c

abbrev digest_with : Bytes → Bytes
digest_with start = text "sha256:" ++ start ++ many 62 b'0'

abbrev witness_key : Bytes → Bytes → Option ℕ → Delegation
witness_key id key revoked = record {
  key_id = id;
  public_key_pem = key;
  roles = text "audit-witness" ∷ [];
  not_before = 1;
  not_after = 100;
  revoked_at = revoked;
  host_id = [];
  custody = text "hsm";
}

abbrev history_of : Bytes → ℕ → Membership → History
history_of before issued members = record {
  api_version = text "science-ladder/v1";
  kind = text "KeyHistory";
  root_fingerprint = digest_with (text "01");
  previous_digest = before;
  genesis_checkpoint_digest = digest_with (text "00");
  issued_at = issued;
  delegations =
      witness_key (text "w1") (text "kk") (some 7)
      ∷ witness_key (text "w2") (text "kkk") none
      ∷ witness_key (text "w3") (text "kkkk") none
      ∷ [];
  witnesses =
      record { key_id = text "w1"; operator = text "ann" }
      ∷ record { key_id = text "w2"; operator = text "bob" }
      ∷ record { key_id = text "w3"; operator = text "eve" }
      ∷ [];
  witness_quorum = 2;
  outage_grace_seconds = 3600;
  prior_witnesses = members;
}

abbrev first_history : History
first_history = history_of genesis 8 nothing

abbrev next_history : Membership → History
next_history members = history_of (digest_with (text "09")) 9 members

abbrev library : Library
library = record {
  decode_pem = λ pem. some (text "PUBLIC KEY", pem, []);
  trim_space = λ s. s;
  parse_p256 = λ b. some b;
  decode_strict = λ b. ok (next_history nothing);
  marshal_history = λ h. ok (zeros 9);
  marshal_delegation = λ d. ok d.key_id;
}

abbrev root_signed : Envelope
root_signed = record {
  payload_type = signed_payload_type;
  payload = text "{}";
  signatures = record { key_id = text "root"; sig = text "r" } ∷ [];
}

abbrev next_members : Membership
next_members = epoch 8 first_history.witnesses true nothing

accepted :
    verify_history crypto library root_signed (text "root") (text "r") (some first_history) 10
    ≡ ok (next_history next_members)
unfolding verify_history accept breaks_policy check_link check_delegations check_roles
    check_witnesses extend by_id keep_delegations parse_public_key fingerprint verify
    check_signatures is_trusted lookup text_eq pae to_string digits hash hex valid_digest unhex
    all_lower
accepted = refl

verify_history_keeps_example :
    (d : Delegation) × In d (next_history next_members).delegations
    × (d.key_id ≡ text "w1")
    × (d.revoked_at ≡ some 7)
    × (delegation_digest crypto library (witness_key (text "w1") (text "kk") (some 7))
        ≡ delegation_digest crypto library d)
verify_history_keeps_example =
    verify_history_keeps crypto library root_signed (text "root") (text "r") first_history
      (next_history next_members) 10 (witness_key (text "w1") (text "kk") (some 7)) 7 accepted first
      refl

-- A host that works under its own delegation.
abbrev host_key : Delegation
host_key = record (witness_key (text "h1") (text "host") none) {
  roles = text "validation-run" ∷ [];
  host_id = text "h1";
}

abbrev host_history : History
host_history = record first_history { delegations = host_key ∷ [] }

delegations_accepted :
    check_delegations crypto library 2 [] [] host_history.delegations
    ≡ ok ((text "h1", host_key.roles) ∷ [])
unfolding check_delegations check_roles parse_public_key fingerprint lookup text_eq hash hex
delegations_accepted = refl

host_passes :
    verify_host_delegation crypto library ok
      (text "production")
      (some host_history)
      (text "h1")
      (text "host")
      5
    ≡ ok tt
unfolding verify_host_delegation check_history parse_runner_key is_bound keys_at parse_public_key
    fingerprint lookup text_eq hash hex
host_passes = refl

verify_host_delegation-Delegated_example :
    Delegated crypto library ok (text "h1") (text "host") 5 host_history.delegations
verify_host_delegation-Delegated_example =
    verify_host_delegation-Delegated crypto library ok (text "h1") (text "host") 5 host_history 2
      delegations_accepted host_passes

abbrev limits : JobLimits
limits = record { api_version = text "science-ladder/v2"; timeout_seconds = pos 3600; fixtures = 4 }

job_lease_duration_lem_example :
    (fifteen_minutes ≤ℤ job_lease_duration limits (text "preflight"))
    × (job_lease_duration limits (text "preflight") ≤ℤ maximum_job_lease)
job_lease_duration_lem_example = job_lease_duration_lem limits (text "preflight")

median_interval_index_lem_example :
    ((median_interval_index 9 950000 ≡ 0)
      ⊎ (covers 9 (target_of 9 950000) (median_interval_index 9 950000) ≡ true))
    × (median_interval_index 9 950000 ≤ (9 + 1) / 2)
    × ((median_interval_index 9 950000 ≡ (9 + 1) / 2)
        ⊎ (covers 9 (target_of 9 950000) (suc (median_interval_index 9 950000)) ≡ false))
median_interval_index_lem_example = median_interval_index_lem 9 950000
