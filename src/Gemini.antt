-- ===== src/Gemini.antt =====
-- internal/gemini/gemini.go: TruncateRunes.
mod Truncate
pub mod Call
pub mod Truncation
mod Scenarios
unfoldable pub use Truncate.{truncate_runes}
