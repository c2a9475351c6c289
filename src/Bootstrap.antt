-- ===== src/Bootstrap.antt =====
-- pkg/userbootstrap/bootstrap.go.
pub mod Identifier
pub mod State
pub mod Create
pub mod FileSeal
mod Tests
