-- ===== src/Main.antt =====
-- main.go: the local commands of the service's program.
pub mod Credential
pub mod Placement
pub mod Start
pub mod Command
mod Tests
