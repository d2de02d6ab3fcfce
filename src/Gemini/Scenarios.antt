-- ===== src/Gemini/Scenarios.antt =====
-- Examples of the properties of TruncateRunes.
use hal_agent_operator.Base.{
  Text, List, [], ◌∷◌, ◌++◌, ◌+◌, ◌≡◌, ◌≤◌, ◌<◌, ◌⊎◌, length, take, All, IsRune, concat, runes,
  utf8, arith, width,
}
use hal_agent_operator.Gemini.{truncate_runes}
use hal_agent_operator.Gemini.Truncation.{truncate_runes_lem}

-- Runes of one, two and three bytes.
abbrev some_runes : List Text
some_runes = utf8 "a" ∷ utf8 "é" ∷ utf8 "…" ∷ []

some_runes-IsRune : All IsRune some_runes
unfolding utf8 width
some_runes-IsRune = ground arith

truncate_runes_lem_example :
    ((length some_runes ≤ 2) × (truncate_runes (concat some_runes) 2 ≡ concat some_runes))
    ⊎ ((2 < length some_runes)
        × (runes (truncate_runes (concat some_runes) 2) ≡ take 2 some_runes ++ utf8 "…" ∷ [])
        × (length (runes (truncate_runes (concat some_runes) 2)) ≡ 2 + 1))
truncate_runes_lem_example = truncate_runes_lem some_runes 2 some_runes-IsRune
