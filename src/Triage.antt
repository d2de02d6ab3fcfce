-- ===== src/Triage.antt =====
-- cmd/triage: the worker that triages an issue.
pub mod Report
pub mod Labels
pub mod Feedback
pub mod Sync
pub mod Agreement
pub mod Finish
pub mod Finished
pub mod Scan
pub mod Shell
pub mod Variables
pub mod Sanitize
pub mod Suspicious
pub mod Prefilter
pub mod Comments
pub mod Hidden
pub mod Run
pub mod Silent
pub mod Asked
pub mod Redaction
pub mod Prose
mod ScanScenarios
mod Fake
mod Scenarios
mod RunScenarios
