-- ===== src/Base.antt =====
-- The base of the library, winterfell/base.
pub mod Timestamp
pub mod Rate
pub mod Log
pub mod Thread
pub mod Mutex
