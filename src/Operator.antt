-- ===== src/Operator.antt =====
-- cmd/main.go: the operator's process.
pub mod Flags
pub mod Options
pub mod Process
pub mod Settings
pub mod Service
mod Scenarios
