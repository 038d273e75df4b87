-- ===== src/Common.antt =====
-- src/ekg/common, service/ServiceResolver.h and what every part shares: the outcomes of C++ code
-- and log lines.
pub mod Outcome
pub mod Log
pub mod Int
pub mod Uuid
pub mod Utility
pub mod Broadcaster
pub mod ServiceResolver
