-- ===== src/Auth.antt =====
-- route/auth.go.
pub mod Header
pub mod Middleware
mod Tests
