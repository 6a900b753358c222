-- ===== src/Http.antt =====
-- The HTTP endpoint for statistics: src/stats/http.
pub mod Request
pub mod Parser
pub mod Reply
pub mod Handler
pub mod Connection
