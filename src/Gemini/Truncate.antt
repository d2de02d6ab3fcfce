-- ===== src/Gemini/Truncate.antt =====
-- internal/gemini/gemini.go: TruncateRunes.
use hal_agent_operator.Base.{ℕ, Text, ◌++◌, leb, length, take, runes, concat, utf8, if◌then◌else◌}

unfoldable pub truncate_runes : Text → ℕ → Text
truncate_runes s max =
    let r = runes s in if leb (length r) max then s else concat (take max r) ++ utf8 "…"
