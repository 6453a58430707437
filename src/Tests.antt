-- ===== src/Tests.antt =====
-- Runs on concrete inputs, and each headline theorem at one of them.
mod Audited
mod Delegated
mod Evaluated
mod Locked
mod Resulted
mod Claimed
mod Confirmed
mod Scores
mod Adjudicated
mod Awarded
