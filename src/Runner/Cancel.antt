-- ===== src/Runner/Cancel.antt =====
-- internal/platform/editorial.go: the jobs of a version that an editor resolves as unscorable.
use science_ladder.Base.{
  ◌+◌, Bool, true, false, ◌&&◌, none, List, [], ◌∷◌, if◌then◌else◌, Bytes, text_eq,
}
use science_ladder.Runner.{Status, queued, running, attention_required, cancelled, JobRow, Runners}

-- `status IN('queued','running','attention_required')`
abbrev pub is_open_status : Status → Bool
is_open_status queued = true
is_open_status running = true
is_open_status attention_required = true
is_open_status _ = false

unfoldable pub cancel_row : JobRow → JobRow
cancel_row j = record j { status = cancelled; fence = j.fence + 1; lease_expires_at = none }

abbrev pub is_cancelled_by : Bytes → JobRow → Bool
is_cancelled_by version j = text_eq j.version_id version && is_open_status j.status

unfoldable pub cancel_rows : Bytes → List JobRow → List JobRow
unfolding cancel_row text_eq
cancel_rows version [] = []
cancel_rows version (j ∷ js) =
    (if is_cancelled_by version j then cancel_row j else j) ∷ cancel_rows version js

-- The update of `runner_jobs`; that of `submissions` beside it is not a column of these rows.
unfoldable pub cancel_jobs : Bytes → Runners → Runners
unfolding cancel_rows
cancel_jobs version db = record db { jobs = cancel_rows version db.jobs }
