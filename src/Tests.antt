-- ===== src/Tests.antt =====
-- Concrete runs of the model: a sample database, and the theorems applied to it.
pub mod Samples
mod Rounds
mod Calls
mod Errors
mod Services
mod Chats
mod Connections
mod Locks
mod Groups
mod Executions
mod Hosts
mod Stores
