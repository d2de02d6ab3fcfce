-- ===== src/Fix/Edits.antt =====
-- cmd/fix/main.go: the edits that the model proposes, checked and applied to a file.
use hal_agent_operator.Base.{
  ℕ, Text, List, [], ◌∷◌, ◌++◌, ◌+◌, Result, ok, err, failure, utf8, decimal_ℕ, is_empty, text_eq,
  count, replace_once, if◌then◌else◌, ◌==◌, ltb,
}

pub record FileEdit : Type 0 where
  pub old : Text
  pub new : Text

abbrev at_edit : ℕ → Text → Text
at_edit i what = utf8 "edit[" ++ (decimal_ℕ i ++ (utf8 "]: " ++ what))

-- The loop of validateEdits, at index `i`, in front of the edits that are kept.
unfoldable pub validate_from : ℕ → List FileEdit → Result (List FileEdit)
validate_from i [] = ok []
validate_from i (e ∷ edits) =
    let rest = validate_from (i + 1) edits in
    if is_empty e.old
    then err (failure (at_edit i (utf8 "empty old")))
    else if text_eq e.old e.new
    then err (failure (at_edit i (utf8 "old and new are identical")))
    else elim rest [ ok es ↦ ok (e ∷ es) | err x ↦ err x ]

unfoldable pub validate_edits : List FileEdit → Result (List FileEdit)
unfolding validate_from
validate_edits [] = err (failure (utf8 "model returned no edits"))
validate_edits (e ∷ edits) = validate_from 0 (e ∷ edits)

-- The loop of applyEdits, at index `i`.
unfoldable pub apply_from : ℕ → Text → List FileEdit → Result Text
apply_from i out [] = ok out
apply_from i out (e ∷ edits) =
    let n = count out e.old in
    let rest = apply_from (i + 1) (replace_once out e.old e.new) edits in
    if n == 0
    then err (failure (at_edit i (utf8 "old string not found in file")))
    else if ltb 1 n
    then err (
        failure (
          at_edit i
            (utf8 "old string matches " ++ (decimal_ℕ n ++ utf8 " times (need exactly 1)"))))
    else rest

-- The end of applyEdits: the edits have to change the file.
unfoldable pub changed : Text → Result Text → Result Text
changed content (err x) = err x
changed content (ok out) =
    if text_eq out content then err (failure (utf8 "edits produced no change")) else ok out

unfoldable pub apply_edits : Text → List FileEdit → Result Text
unfolding apply_from changed
apply_edits content edits = changed content (apply_from 0 content edits)
