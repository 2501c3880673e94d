-- ===== src/Domain.antt =====
-- src/domain: the vocabulary of jobs, errors and destinations.
pub mod Jobs
pub mod Errors
pub mod Queue
pub mod Groups
