-- ===== src/OAuth.antt =====
-- credbroker/oauth: the connect flow.
pub mod State
pub mod Google
pub mod Router
