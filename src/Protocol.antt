-- ===== src/Protocol.antt =====
-- The wire format: RESP2 replies and the incremental command parser (src/protocol).
pub mod Decimal
pub mod Writer
pub mod Parser
mod Tests
