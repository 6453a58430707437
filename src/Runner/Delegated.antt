-- ===== src/Runner/Delegated.antt =====
-- internal/platform/runners.go: `verifyHostDelegation` and `parseRunnerKey`.
use science_ladder.Base.{
  ℕ, ◌≡◌, refl, sym, ◌∙◌, Bool, true, false, ◌&&◌, ◌||◌, not, inl, inr, Option, none, some, List,
  [], ◌∷◌, ap, Bool-cases, and_parts, was_true, Bytes, text, text_eq, text_eq→eq, Result, Error, ok,
  err, message, refused, ◌>>=◌, ◌>>◌, reject_if, >>=-eq-ok, passed_guard, In, first, later,
  if◌then◌else◌,
}
use science_ladder.Signing.{Crypto, Key, lookup}
use science_ladder.Audit.Quorum.{fingerprint}
use science_ladder.Audit.History.{Delegation, History, Library, Roles, check_delegations}
use science_ladder.Audit.History.Active.{Source, keys_at, keys_at_lem}
use science_ladder.Audit.History.Distinct.{same_delegation}

abbrev pub from_block : (Bytes → Result Key) → Option (Bytes × Bytes × Bytes) → Result Key
from_block parse none = err (message "runner public key invalid")
from_block parse (some (kind, body, rest)) = parse body

-- `parse` is `x509.ParsePKIXPublicKey`.
unfoldable pub parse_runner_key : Library → (Bytes → Result Key) → Bytes → Result Key
parse_runner_key l parse pem = from_block parse (l.decode_pem pem)

-- The fingerprint of `permitted[host.ID]`; a key that is missing is `nil`.
abbrev pub permitted_print : Crypto → Option (Option Key) → Result Bytes
permitted_print c (some (some key)) = fingerprint c key
permitted_print c _ = err (message "P-256 public key required")

abbrev pub is_print : Bytes → Result Bytes → Bool
is_print actual (err e) = false
is_print actual (ok want) = text_eq want actual

-- The loop over the delegations.
unfoldable pub is_bound : Bytes → List Delegation → Bool
unfolding text_eq
is_bound host [] = false
is_bound host (d ∷ ds) = (text_eq d.key_id host && text_eq d.host_id host) || is_bound host ds

unfoldable pub check_history :
    Crypto → Library → (Bytes → Result Key) → Bytes → Bytes → ℕ → Option History → Result (Unit {0})
unfolding parse_runner_key fingerprint keys_at lookup is_bound text_eq
check_history c l parse host pem at none = err (refused 503 "runner_delegation_missing")
check_history c l parse host pem at (some h) = do
  key ← parse_runner_key l parse pem
  actual ← fingerprint c key
  reject_if
      (not (
        is_print actual (
          permitted_print c (lookup host (keys_at l (text "validation-run") at [] h.delegations)))))
      (refused 403 "runner_delegation_invalid")
  reject_if (not (is_bound host h.delegations)) (refused 403 "runner_host_binding_invalid")

-- `mode` is the platform's deployment mode, `host` and `pem` are the host's id and public key.
unfoldable pub verify_host_delegation :
    Crypto
    → Library
    → (Bytes → Result Key)
    → Bytes
    → Option History
    → Bytes
    → Bytes
    → ℕ
    → Result (Unit {0})
unfolding check_history text_eq
verify_host_delegation c l parse mode history host pem at =
    if not (text_eq mode (text "production"))
    then ok tt
    else check_history c l parse host pem at history

-- The one delegation that a production host works under.
pub record Delegated (c : Crypto) (l : Library) (parse : Bytes → Result Key) (host : Bytes)
    (pem : Bytes) (at : ℕ) (ds : List Delegation) : Type 0 where
  pub source : (key : Key) × Source l (text "validation-run") at host (some key) ds
  pub bound : source.1.delegation.host_id ≡ host
  pub own : Key
  pub own_read : parse_runner_key l parse pem ≡ ok own
  pub print : Bytes
  pub own_print : fingerprint c own ≡ ok print
  pub same_print : fingerprint c source.0 ≡ ok print

-- A host that the history binds has a delegation in it.
is_bound-In :
    (host : Bytes) (ds : List Delegation)
    → is_bound host ds ≡ true
    → (d : Delegation) × In d ds × (d.key_id ≡ host) × (d.host_id ≡ host)
unfolding is_bound
is_bound-In host [] h = cc
is_bound-In host (d ∷ ds) h = elim (Bool-cases (text_eq d.key_id host && text_eq d.host_id host)) [
  | inl e ↦
      let (named, bound) = and_parts _ _ e in
      (d, first, text_eq→eq d.key_id host named, text_eq→eq d.host_id host bound)
  | inr e ↦
      let (d', m, named, bound) = is_bound-In host ds (rw e at h) in (d', later m, named, bound)
]

-- A key that is permitted under a print has that print.
permitted_key :
    (c : Crypto) (actual : Bytes) (found : Option (Option Key))
    → is_print actual (permitted_print c found) ≡ true
    → (key : Key) × (found ≡ some (some key)) × (fingerprint c key ≡ ok actual)
permitted_key c actual none h = cc
permitted_key c actual (some none) h = cc
permitted_key c actual (some (some key)) h = (key, refl, printed (fingerprint c key) h)
  where
    printed : (r : Result Bytes) → is_print actual r ≡ true → r ≡ ok actual
    printed (err e) g = cc
    printed (ok want) g = ap ok (text_eq→eq want actual g)

not_rejected : (b : Bool) (e : Error) → reject_if (not b) e ≡ ok tt → b ≡ true
not_rejected true e h = refl
not_rejected false e h = cc

module _ (c : Crypto) (l : Library) (parse : Bytes → Result Key) (host pem : Bytes) (at : ℕ) where
  check_history-Delegated :
      (h : History) (issued : ℕ) {roles : Roles}
      → check_delegations c l issued [] [] h.delegations ≡ ok roles
      → check_history c l parse host pem at (some h) ≡ ok tt
      → Delegated c l parse host pem at h.delegations
  unfolding check_history
  check_history-Delegated h issued accepted done =
      let (own, own_read, h1) = >>=-eq-ok (parse_runner_key l parse pem) _ done in
      let (print, own_print, h2) = >>=-eq-ok (fingerprint c own) _ h1 in
      let (good, h3) = passed_guard _ _ h2 in
      let (key, found, same_print) = permitted_key c print _ (was_true _ good) in
      let source = keys_at_lem l (text "validation-run") at host (some key) h.delegations found in
      let (d, m, named, bound) = is_bound-In host h.delegations (not_rejected _ _ h3) in
      let same =
        same_delegation c l issued [] [] h.delegations accepted m source.among
          (named ∙ sym source.named) in
      record {
        source = (key, source);
        bound = ap (λ (x : Delegation). x.host_id) (sym same) ∙ bound;
        own = own;
        own_read = own_read;
        print = print;
        own_print = own_print;
        same_print = same_print;
      }

  -- Where the delegations of a history were accepted, a host that passes the check in production
  -- has the key of a delegation of the history for the role `validation-run`, with the host's id as
  -- its key id and as its host, in force at the time and not revoked by then.
  pub verify_host_delegation-Delegated :
      (h : History) (issued : ℕ) {roles : Roles}
      → check_delegations c l issued [] [] h.delegations ≡ ok roles
      → verify_host_delegation c l parse (text "production") (some h) host pem at ≡ ok tt
      → Delegated c l parse host pem at h.delegations
  unfolding verify_host_delegation text_eq
  verify_host_delegation-Delegated h issued accepted done =
      check_history-Delegated h issued accepted done
