-- ===== src/Net.antt =====
-- Connections and the event loop (src/net).
pub mod Table
pub mod Connection
pub mod EventLoop
pub mod Reactor
mod Tests
