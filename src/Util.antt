-- ===== src/Util.antt =====
-- The utilities, winterfell/util.
pub mod Any
