-- ===== src/Fix/Markers.antt =====
-- cmd/fix/main.go: the edit blocks of a model's answer (parseMarkerEdits).
use hal_agent_operator.Base.{
  ℕ, zero, suc, Text, List, [], ◌∷◌, ◌++◌, ◌+◌, Option, none, some, ok, err, failure, utf8, Outcome,
  panics, returns, quote, length, take, drop, cut_first, trim_prefix, trim_suffix, if◌then◌else◌,
  ltb,
}
use hal_agent_operator.Fix.Edits.{FileEdit, validate_edits}

abbrev pub begin_mark : Text
begin_mark = utf8 "*** Begin Edit ***"

abbrev pub old_mark : Text
old_mark = utf8 "*** Old ***"

abbrev pub new_mark : Text
new_mark = utf8 "*** New ***"

abbrev pub end_mark : Text
end_mark = utf8 "*** End Edit ***"

abbrev pub newline : Text
newline = b'\n' ∷ []

-- One newline less at either end.
unfoldable pub trim_newlines : Text → Text
trim_newlines t = trim_suffix (trim_prefix t newline) newline

abbrev pub no_marks : Text
no_marks = utf8 "edit block missing Old/New markers"

-- The edit of a block, from the first marks in it; a slice from after the old mark to the new mark
-- panics where the new mark starts inside of the old mark.
unfoldable pub block_edit : Text → Option (Text × Text) → Option (Text × Text) → Outcome FileEdit
unfolding trim_newlines
block_edit block none new_at = returns (err (failure no_marks))
block_edit block (some old_at) none = returns (err (failure no_marks))
block_edit block (some old_at) (some new_at) =
    let oi = length old_at.0 in
    let ni = length new_at.0 in
    let start = oi + length old_mark in
    if ltb ni oi
    then returns (err (failure no_marks))
    else if ltb ni start
    then panics
    else returns (
        ok (record {
          old = trim_newlines (drop start (take ni block));
          new = trim_newlines new_at.1;
        }))

unfoldable pub parse_block : Text → Outcome FileEdit
unfolding block_edit
parse_block block = block_edit block (cut_first old_mark block) (cut_first new_mark block)

-- A block and what the rest of the loop makes.
unfoldable pub add_block :
    Outcome FileEdit → Option (Outcome (List FileEdit)) → Option (Outcome (List FileEdit))
add_block panics later = some panics
add_block (returns (err e)) later = some (returns (err e))
add_block (returns (ok e)) none = none
add_block (returns (ok e)) (some panics) = some panics
add_block (returns (ok e)) (some (returns (err x))) = some (returns (err x))
add_block (returns (ok e)) (some (returns (ok es))) = some (returns (ok (e ∷ es)))

-- The loop, with fuel: none is a loop that has not ended.
unfoldable pub parse_blocks : ℕ → Text → Option (Outcome (List FileEdit))
unfolding add_block parse_block
parse_blocks zero rest = none
parse_blocks (suc fuel) rest = elim (cut_first begin_mark rest) [
  | none ↦ some (returns (ok []))
  | some x ↦ elim (cut_first end_mark x.1) [
    | none ↦ some (returns (err (failure (utf8 "edit block missing " ++ quote end_mark))))
    | some y ↦ add_block (parse_block y.0) (parse_blocks fuel y.1)
  ]
]

unfoldable pub validated : Option (Outcome (List FileEdit)) → Option (Outcome (List FileEdit))
validated none = none
validated (some panics) = some panics
validated (some (returns (err e))) = some (returns (err e))
validated (some (returns (ok es))) = some (returns (validate_edits es))

-- Each round of the loop takes at least one byte, so the length of the text is fuel enough.
unfoldable pub parse_marker_edits : Text → Option (Outcome (List FileEdit))
unfolding parse_blocks validated
parse_marker_edits raw = validated (parse_blocks (suc (length raw)) raw)
