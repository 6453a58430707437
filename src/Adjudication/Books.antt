-- ===== src/Adjudication/Books.antt =====
-- The capacity account and the audit log stay in order.
use science_ladder.Base.{
  ℕ, suc, ◌+◌, ◌*◌, ◌≡◌, refl, Bool, true, false, some, List, [], ◌∷◌, arith, if◌then◌else◌, Bytes,
  text, ok, >>=-eq-ok, subst,
}
use science_ladder.Adjudication.Rows.{Submission, AuditRow, Reservation, Event, Db, Env}
use science_ladder.Manifest.{Manifest}
use science_ladder.Adjudication.Judge.{Verdict}
use science_ladder.Adjudication.Write.{
  written, return_units, release, audit, audit_row, last_digest, last_sequence,
}
use science_ladder.Adjudication.Run.{adjudicate}
use science_ladder.Adjudication.Steps.{Wrote, write-Wrote, adjudicate_induction}

-- The reservations that hold capacity.
abbrev pub active : List Reservation → ℕ
active [] = 0
active (r ∷ rs) = if r.released then active rs else suc (active rs)

-- Every reservation that is not released accounts for two units.
abbrev pub IsBalanced : Db → Type 0
IsBalanced db = db.reserved_units ≡ 2 * active db.reservations

active-release :
    (id : Bytes) (rs : List Reservation)
    → active (release id rs).0 + (if (release id rs).1 then 1 else 0) ≡ active rs
unfolding release
active-release id [] = refl
active-release id (r ∷ rs) = ground (arith, active-release id rs)

returned_lem :
    (hit : Bool) (units : ℕ) {left : ℕ}
    → return_units hit units ≡ ok left
    → left + (if hit then 2 else 0) ≡ units
unfolding return_units
returned_lem true units h = ground arith
returned_lem false units h = ground arith

write-IsBalanced :
    (env : Env) (db : Db) (n : ℕ) (ss : Submission) (v : Verdict) {db' : Db}
    → Wrote env db n ss v db'
    → IsBalanced db
    → IsBalanced db'
unfolding written
write-IsBalanced env db n ss v w b =
    rw (w.rows) (ground (arith, active-release ss.id db.reservations, returned_lem _ _ w.returned))

-- Where the reserved units are twice the reservations that are not released, they are so after a
-- call that succeeds.
pub adjudicate-IsBalanced :
    (env : Env) (m : Manifest) (db : Db) {db' : Db}
    → IsBalanced db
    → adjudicate env m db ≡ some (ok db')
    → IsBalanced db'
adjudicate-IsBalanced env m db b h =
    let e =
      adjudicate_induction env m (λ d s. IsBalanced d)
        (λ d d' s s' w.
          write-IsBalanced env d (s.watermark + 1) w.ss w.verdict (write-Wrote _ _ _ _ _ w.done))
        db (λ s p. b) h in
    rw e.stored e.holds

-- Each entry of the log names the digest of the one before it, and has the next number.
abbrev pub IsChain : Env → List AuditRow → Type 0
IsChain env [] = Unit
IsChain env (r ∷ rs) =
    (r.previous ≡ last_digest rs)
    × (r.sequence ≡ last_sequence rs + 1)
    × (env.event_digest r.previous r.kind r.payload ≡ ok r.digest)
    × IsChain env rs

audit-IsChain :
    (env : Env) (kind : Bytes) (e : Event) (log : List AuditRow) {log' : List AuditRow}
    → audit env kind e log ≡ ok log'
    → IsChain env log
    → IsChain env log'
unfolding audit
audit-IsChain env kind e log {log'} h c =
    let (digest, digested, built) = >>=-eq-ok (env.event_digest (last_digest log) kind e) _ h in
    let same : audit_row kind e log digest ∷ log ≡ log' = cc in
    subst (IsChain env) same (refl, refl, digested, c)

write-IsChain :
    (env : Env) (db : Db) (n : ℕ) (ss : Submission) (v : Verdict) {db' : Db}
    → Wrote env db n ss v db'
    → IsChain env db.audit_log
    → IsChain env db'.audit_log
unfolding written
write-IsChain env db n ss v w c =
    rw w.rows (audit-IsChain env (text "submission.adjudicated") _ db.audit_log w.audited c)

-- Where each entry of the audit log names the digest of the one before it and has the next number,
-- it is so after a call that succeeds.
pub adjudicate-IsChain :
    (env : Env) (m : Manifest) (db : Db) {db' : Db}
    → IsChain env db.audit_log
    → adjudicate env m db ≡ some (ok db')
    → IsChain env db'.audit_log
adjudicate-IsChain env m db c h =
    let e =
      adjudicate_induction env m (λ d s. IsChain env d.audit_log)
        (λ d d' s s' w.
          write-IsChain env d (s.watermark + 1) w.ss w.verdict (write-Wrote _ _ _ _ _ w.done))
        db (λ s p. c) h in
    rw e.stored e.holds
