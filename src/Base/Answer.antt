-- ===== src/Base/Answer.antt =====
-- The JSON object in a model's answer: extractJSONObject of cmd/fix/main.go, whose statements
-- cmd/triage/main.go repeats in parseResult.
use Prim.Native.Nat.{ℕ, ◌+◌, ◌-◌}
use mathlib.Core.Bool.{Bool, true, false}
use mathlib.Core.Option.{Option, none, some}
use mathlib.Core.List.{[], ◌∷◌}
use hal_agent_operator.Base.Tests.{◌==◌, ltb, if◌then◌else◌}
use hal_agent_operator.Base.Lists.{length, take, drop}
use hal_agent_operator.Base.GoText.{Text, utf8}
use hal_agent_operator.Base.Search.{has_prefix, trim_prefix, trim_suffix, trim_space, cut_first}

-- strings.LastIndex of one byte.
abbrev later_index : Bool → Option ℕ → Option ℕ
later_index here (some n) = some (n + 1)
later_index true none = some 0
later_index false none = none

unfoldable pub last_index : ℕ → Text → Option ℕ
last_index b [] = none
last_index b (c ∷ t) = let later = last_index b t in later_index (c == b) later

-- strings.Contains
unfoldable pub contains_text : Text → Text → Bool
contains_text t sub = elim (cut_first sub t) [ none ↦ false | some x ↦ true ]

-- The text from its first `{` to its last `}`.
unfoldable pub braces : Text → Option (Text × Text) → Option ℕ → Text
braces t none end = t
braces t (some x) none = t
braces t (some x) (some end) =
    let start = length x.0 in if ltb start end then take (end + 1 - start) (drop start t) else t

unfoldable pub extract_json_object : Text → Text
unfolding braces last_index
extract_json_object raw =
    let fence = utf8 "```" in
    let opened = trim_prefix (trim_prefix (trim_space raw) (utf8 "```json")) fence in
    let cleaned = trim_space (trim_suffix opened fence) in
    if has_prefix cleaned (utf8 "{")
    then cleaned
    else braces cleaned (cut_first (utf8 "{") cleaned) (last_index b'}' cleaned)
