-- ===== src/Core/Commands.antt =====
-- The command handlers: src/core/commands.cpp. A handler takes the command, its name first, and
-- returns the reply; its tests on `cmd.size()` are the patterns.
pub mod Strings
pub mod Readback
pub mod Overflow
pub mod Keys
pub mod Ttl
pub mod Lists
pub mod Misc
