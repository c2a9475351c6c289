-- ===== src/Session.antt =====
-- service/session.go and service/session_issue.go.
pub mod Access
pub mod Refresh
pub mod Lockout
pub mod Events
pub mod Prune
pub mod Issue
pub mod Runs
mod Tests
