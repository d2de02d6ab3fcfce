-- ===== src/Fix.antt =====
-- cmd/fix/main.go: the worker that fixes an issue.
pub mod Config
pub mod Environment
pub mod Edits
pub mod Markers
pub mod Rewrites
pub mod Blocks
pub mod Validation
pub mod Print
pub mod RoundTrip
pub mod Answers
pub mod GoFiles
pub mod Listing
pub mod Tools
pub mod Steps
pub mod Run
pub mod Proposals
pub mod Phases
pub mod Success
pub mod Unpushed
pub mod Inside
pub mod Fake
mod Scenarios
mod RunScenarios
mod InsideScenarios
mod AnswerScenarios
