-- ===== src/Adjudication/Ends.antt =====
-- The loop of adjudication ends: the fuel that a call gives is enough.
use science_ladder.Base.{
  ℕ, zero, suc, ◌+◌, ◌<◌, ◌≡◌, ◌≢◌, refl, Option, none, some, arith, Result, ok, err,
}
use science_ladder.Adjudication.Rows.{Db, Env}
use science_ladder.Manifest.{Manifest}
use science_ladder.Adjudication.Judge.{Standing, next_standing}
use science_ladder.Adjudication.Write.{written}
use science_ladder.Adjudication.Run.{
  Round, stop, fail, go, round, rounds, start, adjudicate, highest,
}
use science_ladder.Adjudication.Steps.{Went, write-Wrote, round-Went}
use science_ladder.Adjudication.Run.{after, from_start, store_all}
use science_ladder.Adjudication.Order.{le-highest, highest-finalize_row}

Went-highest :
    (env : Env) (m : Manifest) (db db' : Db) (s s' : Standing)
    → Went env m db s db' s'
    → (s.watermark < highest db.submissions)
      × (s'.watermark ≡ s.watermark + 1)
      × (highest db'.submissions ≡ highest db.submissions)
unfolding written next_standing
Went-highest env m db db' s s' w =
    let x = write-Wrote _ _ _ _ _ w.done in
    let low = le-highest (s.watermark + 1) db.submissions w.ss w.found in
    (
      omega arith,
      rw w.standing,
      rw x.rows (highest-finalize_row w.ss.id w.verdict.publish x.digest db.submissions),
    )

after-ne-none :
    (env : Env) (m : Manifest) (fuel : ℕ) (db : Db) (s : Standing) (r : Round)
    → ((d : Db) (t : Standing) → round env m db s ≡ go d t → rounds env m fuel d t ≢ none)
    → round env m db s ≡ r
    → after (rounds env m fuel) db s r ≢ none
after-ne-none env m fuel db s stop ih e h = cc
after-ne-none env m fuel db s (fail x) ih e h = cc
after-ne-none env m fuel db s (go d t) ih e h = ih d t e h

rounds-ne-none :
    (env : Env) (m : Manifest) (fuel : ℕ) (db : Db) (s : Standing)
    → highest db.submissions < s.watermark + fuel
    → 0 < fuel
    → rounds env m fuel db s ≢ none
unfolding rounds
rounds-ne-none env m zero db s h p e = absurd (omega arith)
rounds-ne-none env m (suc fuel) db s h p e =
    after-ne-none env m fuel db s (round env m db s)
      (λ d t r.
        let (low, next, same) = Went-highest env m db d s t (round-Went env m db s r) in
        rounds-ne-none env m fuel d t (omega arith) (omega arith))
      refl e

store_all-ne-none : (r : Option (Result (Db × Standing))) → r ≢ none → store_all r ≢ none
store_all-ne-none none h e = h refl
store_all-ne-none (some (err x)) h e = cc
store_all-ne-none (some (ok x)) h e = cc

from_start-ne-none :
    (env : Env) (m : Manifest) (db : Db) (r : Result Standing) → from_start env m db r ≢ none
from_start-ne-none env m db (err x) e = cc
from_start-ne-none env m db (ok s) e =
    store_all-ne-none _
      (rounds-ne-none env m (suc (highest db.submissions)) db s (omega arith) (omega arith)) e

-- A call of `adjudicate` ends, on any rows and whatever the libraries answer: the rounds that it is
-- given are enough.
pub adjudicate-ne-none : (env : Env) (m : Manifest) (db : Db) → adjudicate env m db ≢ none
unfolding adjudicate
adjudicate-ne-none env m db = from_start-ne-none env m db (start m db)
