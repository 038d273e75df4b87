-- ===== src/Epics.antt =====
-- service/epics: channels and the manager that polls them.
pub mod Channel
pub mod Manager
