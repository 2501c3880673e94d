-- ===== src/Jobs.antt =====
-- src/db/repositories/job-repository.ts: the queue of jobs. The modules below hold its operations
-- and, each named for what it proves, their properties.
pub mod Rows
pub mod Create
pub mod Claim
pub mod Transition
pub mod Sweep
pub mod Report
pub mod Invariant
pub mod Evolution
pub mod Rules
pub mod Moves
pub mod Index
pub mod Claimable
pub mod Claiming
pub mod Recovery
pub mod Outcomes
pub mod Replaced
pub mod Moving
pub mod Requeue
pub mod Insertion
