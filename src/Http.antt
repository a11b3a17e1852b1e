-- ===== src/Http.antt =====
-- The HTTP layer, winterfell/net/http.
pub mod StringMap
pub mod Request
pub mod Context
pub mod Response
pub mod Server
