-- ===== src/Fix/Proposals.antt =====
-- cmd/fix/main.go: the edits that parseEdits reads in an answer.
use hal_agent_operator.Base.{
  Text, List, some, Result, ok, err, trim_space, ◌≡◌, ◌≢◌, refl, arith, All, Bool, true, false,
  if◌then◌else◌, Outcome, returns,
}
use hal_agent_operator.Fix.Edits.{FileEdit, apply_edits}
use hal_agent_operator.Fix.Markers.{parse_marker_edits}
use hal_agent_operator.Fix.Blocks.{parse_marker_edits_ends}
use hal_agent_operator.Fix.Rewrites.{Rewrites}
use hal_agent_operator.Fix.Validation.{
  IsValidEdit, validate_edits-valid, parse_marker_edits-valid, valid-Rewrites,
}
use hal_agent_operator.Fix.Answers.{
  Decoding, decoded_edits, parse_json_edits, or_markers, parse_edits,
}

module _ (d : Decoding) where
  decoded_edits-valid :
      (x : Result (List FileEdit)) (edits : List FileEdit)
      → decoded_edits x ≡ ok edits
      → All IsValidEdit edits
  unfolding decoded_edits
  decoded_edits-valid (ok given) edits h = validate_edits-valid given edits h
  decoded_edits-valid (err e) edits h = ground arith

  parse_json_edits-valid :
      (raw : Text) (edits : List FileEdit)
      → parse_json_edits d raw ≡ ok edits
      → All IsValidEdit edits
  unfolding parse_json_edits
  parse_json_edits-valid raw edits h = decoded_edits-valid _ edits h

  or_markers-valid :
      (raw : Text) (x : Result (List FileEdit)) (edits : List FileEdit)
      → ((given : List FileEdit) → x ≡ ok given → All IsValidEdit given)
      → or_markers d raw x ≡ some (returns (ok edits))
      → All IsValidEdit edits
  unfolding or_markers
  or_markers-valid raw (ok given) edits v h = v edits (ground arith)
  or_markers-valid raw (err e) edits v h = parse_marker_edits-valid raw edits h

  choice :
      (json : Bool) (raw : Text) (edits : List FileEdit)
      → (if json then or_markers d raw (parse_json_edits d raw) else parse_marker_edits raw)
        ≡ some (returns (ok edits))
      → All IsValidEdit edits
  choice true raw edits h =
      or_markers-valid raw (parse_json_edits d raw) edits (parse_json_edits-valid raw) h
  choice false raw edits h = parse_marker_edits-valid raw edits h

  -- Whichever format the answer has, and also where the JSON was tried and has failed: the edits
  -- that parseEdits returns have old texts, and where applyEdits then returns a text, each edit in
  -- turn found its old text, with no other occurrence behind the end of the first one, and replaced
  -- that first one (one that overlaps it is not excluded), and the file was changed.
  pub parse_edits-Rewrites :
      (raw content out : Text) (edits : List FileEdit)
      → parse_edits d raw ≡ some (returns (ok edits))
      → apply_edits content edits ≡ ok out
      → All IsValidEdit edits × Rewrites content edits out × (out ≢ content)
  unfolding parse_edits
  parse_edits-Rewrites raw content out edits h a =
      let valid = choice _ (trim_space raw) edits h in
      let (r, changed) = valid-Rewrites content out edits valid a in (valid, r, changed)

  or_markers_ends :
      (raw : Text) (x : Result (List FileEdit))
      → (o : Outcome (List FileEdit)) × (or_markers d raw x ≡ some o)
  unfolding or_markers
  or_markers_ends raw (ok edits) = (returns (ok edits), refl)
  or_markers_ends raw (err e) = parse_marker_edits_ends raw

  -- parseEdits ends on every answer.
  pub parse_edits_ends : (raw : Text) → (o : Outcome (List FileEdit)) × (parse_edits d raw ≡ some o)
  unfolding parse_edits
  parse_edits_ends raw = go _ (trim_space raw)
    where
      go :
          (json : Bool) (t : Text)
          → (o : Outcome (List FileEdit)) × ((if json
                then or_markers d t (parse_json_edits d t)
                else parse_marker_edits t)
              ≡ some o)
      go true t = or_markers_ends t (parse_json_edits d t)
      go false t = parse_marker_edits_ends t
