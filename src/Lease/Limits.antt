-- ===== src/Lease/Limits.antt =====
-- The bounds of a lease.
use science_ladder.Base.{inl, inr, arith, Bool-cases, Bytes, text_eq}
use science_ladder.Base.Int.{ℤ, pos, ◌≤ℤ◌, ◌+ℤ◌, scale}
use science_ladder.Lease.{
  JobLimits, manifest_v2, second, fifteen_minutes, maximum_job_lease, wrap, clamp, job_seconds,
  job_lease_duration,
}

clamp_lem : (d : ℤ) → (fifteen_minutes ≤ℤ clamp d) × (clamp d ≤ℤ maximum_job_lease)
clamp_lem d = (ground arith, ground arith)

-- Whatever a manifest declares, and though the seconds may wrap, a job is leased for 15 minutes at
-- least and for 18 hours at most.
pub job_lease_duration_lem :
    (m : JobLimits) (purpose : Bytes)
    → (fifteen_minutes ≤ℤ job_lease_duration m purpose)
      × (job_lease_duration m purpose ≤ℤ maximum_job_lease)
unfolding job_lease_duration
job_lease_duration_lem m purpose = elim (Bool-cases (text_eq m.api_version manifest_v2)) [
  | inl h ↦ rw h (clamp_lem (wrap (scale (wrap (job_seconds m purpose +ℤ pos 600)) second)))
  | inr h ↦ rw h (ground arith, ground arith)
]
