-- ===== src/Node.antt =====
-- controller/node: the workers, the stored configuration and the controller over them.
pub mod Worker
pub mod Configuration
pub mod Controller
