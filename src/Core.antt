-- ===== src/Core.antt =====
-- The keyspace, expiry and the command dispatcher (src/core).
pub mod Fault
pub mod Glob
pub mod Db
pub mod Expiry
pub mod Server
pub mod Replies
pub mod Commands
pub mod Dispatch
pub mod Healthy
pub mod Logged
mod Tests
mod DbTests
pub mod ServerTests
mod HealthyTests
