-- ===== src/Data.antt =====
-- service/data: the channel repository over its database.
pub mod Orm
pub mod Repository
pub mod Storage
