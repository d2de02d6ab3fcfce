-- ===== src/Fix/Answers.antt =====
-- cmd/fix/main.go: the answers of the model (extractJSONObject, parseEdits, parseJSONEdits,
-- parseLocatePath, stripCodeFences).
use hal_agent_operator.Base.{
  Text, List, ◌++◌, ◌||◌, Option, none, some, Result, ok, err, failure, utf8, is_empty, has_prefix,
  trim_prefix, trim_suffix, trim_space, cut_first, if◌then◌else◌, wrapped, Outcome, returns,
  contains_text, extract_json_object,
}
use hal_agent_operator.Fix.Edits.{FileEdit, validate_edits}
use hal_agent_operator.Fix.Markers.{parse_marker_edits}

-- Nothing of the program calls it but a test.
unfoldable pub strip_code_fences : Text → Text
strip_code_fences s =
    let t = trim_space s in
    if has_prefix t (utf8 "```")
    then trim_space
        (trim_suffix (elim (cut_first (utf8 "\n") t) [ none ↦ t | some x ↦ x.1 ]) (utf8 "```"))
    else t

-- json.Unmarshal into editResponse and locateResponse, and strconv.Quote.
pub record Decoding : Type 0 where
  pub unmarshal_edits : Text → Result (List FileEdit)
  pub unmarshal_locate : Text → Result Text
  pub quoted : Text → Text

unfoldable pub decoded_edits : Result (List FileEdit) → Result (List FileEdit)
decoded_edits (ok edits) = validate_edits edits
decoded_edits (err e) = err (wrapped (utf8 "parse edit response") e)

module _ (d : Decoding) where
  unfoldable pub parse_json_edits : Text → Result (List FileEdit)
  parse_json_edits raw = decoded_edits (d.unmarshal_edits (extract_json_object raw))

  -- parseEdits where the JSON was not tried or has failed.
  unfoldable pub or_markers : Text → Result (List FileEdit) → Option (Outcome (List FileEdit))
  or_markers trimmed (ok edits) = some (returns (ok edits))
  or_markers trimmed (err e) = parse_marker_edits trimmed

  unfoldable pub parse_edits : Text → Option (Outcome (List FileEdit))
  parse_edits raw =
      let trimmed = trim_space raw in
      if has_prefix trimmed (utf8 "{") || has_prefix trimmed (utf8 "```json")
      then or_markers trimmed (parse_json_edits trimmed)
      else parse_marker_edits trimmed

  unfoldable pub checked_path : Text → Result Text
  checked_path located =
      let path = trim_prefix (trim_space located) (utf8 "./") in
      if is_empty path || contains_text path (utf8 "..")
      then err (failure (utf8 "invalid path from model: " ++ d.quoted located))
      else ok path

  unfoldable pub located_path : Result Text → Result Text
  located_path (ok located) = checked_path located
  located_path (err e) = err (wrapped (utf8 "parse locate response") e)

  unfoldable pub parse_locate_path : Text → Result Text
  parse_locate_path raw = located_path (d.unmarshal_locate (extract_json_object raw))
