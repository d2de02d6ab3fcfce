-- ===== src/Controller.antt =====
-- internal/controller/issueresolution_controller.go
mod Config
pub mod Jobs
pub mod Results
mod Handlers
pub mod Triage
mod Fix
mod Reconcile
mod Diagram
mod Passes
mod Frame
pub mod Runs
pub mod Gate
pub mod Attempts
pub mod Retries
pub mod Safety
pub mod Security
pub mod Reports
pub mod Progress
pub mod Fake
pub mod Scenarios
mod Launches
unfoldable pub use Config.{
  triage_image, gemini_secret_name, gemini_secret_key, gemini_model, fix_image,
  github_triage_secret_name, github_fix_secret_name, github_secret_key, job_triage_service_account,
  job_fix_service_account, first_non_empty,
}
pub use Config.{Reconciler}
