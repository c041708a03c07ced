-- ===== src/Auth.antt =====
-- src/agent/auth.py: the bearer token of a request and its verification.
pub mod Bearer
pub mod Verify
pub mod Context
pub mod Middleware
pub mod Sample
mod Tests
