-- ===== src/Lease.antt =====
-- pkg/protocol/lease.go: how long a runner may hold a job. Durations are int64 nanoseconds and wrap.
pub mod Limits
use science_ladder.Base.{
  ℕ, ◌+◌, ◌-◌, ◌*◌, ◌/◌, ◌%◌, ◌^◌, Bool, ◌||◌, not, ltb, if◌then◌else◌, Bytes, text, text_eq,
}
use science_ladder.Base.Int.{ℤ, pos, negsuc, sub_ℕ, scale, ltb_ℤ, eqb_ℤ, leb_ℤ, ◌+ℤ◌}

-- The int64 that a number wraps to.
abbrev pub two_to_64 : ℕ
two_to_64 = 2 ^ 64

abbrev pub of_residue : ℕ → ℤ
of_residue r = if ltb r (2 ^ 63) then pos r else sub_ℕ r two_to_64

abbrev pub residue : ℤ → ℕ
residue (pos n) = n % two_to_64
residue (negsuc n) = two_to_64 - 1 - n % two_to_64

unfoldable pub wrap : ℤ → ℤ
wrap z = of_residue (residue z)

-- The parts of a manifest that the lease depends on; the timeout is an int.
pub record JobLimits : Type 0 where
  pub api_version : Bytes
  pub timeout_seconds : ℤ
  pub fixtures : ℕ

abbrev pub manifest_v2 : Bytes
manifest_v2 = text "science-ladder/v2"

abbrev pub second : ℕ
second = 1000000000

abbrev pub fifteen_minutes : ℤ
fifteen_minutes = pos 900000000000

-- `MaximumJobLease`, 18 hours.
abbrev pub maximum_job_lease : ℤ
maximum_job_lease = pos 64800000000000

-- `seconds` before the allowance of ten minutes.
unfoldable pub job_seconds : JobLimits → Bytes → ℤ
unfolding wrap ◌+ℤ◌ scale
job_seconds m purpose =
    let declared = wrap (m.timeout_seconds +ℤ pos 60) in
    let both =
      if text_eq purpose (text "preflight")
      then wrap (scale declared (2 * m.fixtures))
      else declared in
    if text_eq purpose (text "artifact_prepare") then pos 300 else both

abbrev pub clamp : ℤ → ℤ
clamp duration =
    let raised = if ltb_ℤ duration fifteen_minutes then fifteen_minutes else duration in
    if ltb_ℤ maximum_job_lease raised || ltb_ℤ raised (pos 0) then maximum_job_lease else raised

unfoldable pub job_lease_duration : JobLimits → Bytes → ℤ
unfolding job_seconds wrap ◌+ℤ◌ scale
job_lease_duration m purpose =
    if not (text_eq m.api_version manifest_v2)
    then fifteen_minutes
    else clamp (wrap (scale (wrap (job_seconds m purpose +ℤ pos 600)) second))

unfoldable pub match_job_lease : JobLimits → Bytes → ℤ → Bool
unfolding job_lease_duration wrap scale
match_job_lease m purpose max_job_seconds =
    let limit = if eqb_ℤ max_job_seconds (pos 0) then pos 900 else max_job_seconds in
    leb_ℤ (job_lease_duration m purpose) (wrap (scale limit second))
