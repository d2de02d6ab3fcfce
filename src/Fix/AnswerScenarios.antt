-- ===== src/Fix/AnswerScenarios.antt =====
-- Examples of the properties of the fix worker's file tree and of the model's answers.
use hal_agent_operator.Base.{
  Text, List, [], ◌∷◌, ◌≡◌, ◌≢◌, refl, some, ok, err, failure, utf8, quote, take, dot, All, returns,
  trim_space, has_prefix, strip_prefix, cut_first, count, replace_once, trim_prefix, trim_suffix,
}
use hal_agent_operator.Fix.Edits.{FileEdit, validate_edits, apply_edits}
use hal_agent_operator.Fix.Rewrites.{Rewrites}
use hal_agent_operator.Fix.Validation.{IsValidEdit}
use hal_agent_operator.Fix.Print.{print_edits, block_of}
use hal_agent_operator.Fix.Markers.{parse_marker_edits}
use hal_agent_operator.Fix.Answers.{Decoding, parse_edits}
use hal_agent_operator.Fix.Proposals.{parse_edits-Rewrites}
use hal_agent_operator.Fix.GoFiles.{Node, Entries, max_tree_entries, list_go_files}
use hal_agent_operator.Fix.Listing.{is_readable, go_files, list_go_files-take}

abbrev repo : Node
repo = Node.dir (utf8 "repo") (
    Entries.entry (Node.locked (utf8 ".git") (failure (utf8 "denied"))) (
      Entries.entry (Node.file (utf8 "README.md")) (
        Entries.entry
          (Node.dir (utf8 "cmd") (Entries.entry (Node.file (utf8 "main.go")) Entries.end))
          Entries.end)))

list_go_files-take_example :
    list_go_files (ok repo) ≡ ok (take max_tree_entries (go_files dot repo))
unfolding is_readable utf8
list_go_files-take_example = list_go_files-take repo refl

abbrev decoding : Decoding
decoding = record {
  unmarshal_edits = λ s. err (failure (utf8 "no JSON"));
  unmarshal_locate = λ s. err (failure (utf8 "no JSON"));
  quoted = quote;
}

abbrev edits : List FileEdit
edits = record { old = utf8 "+"; new = utf8 "-" } ∷ []

abbrev answer : Text
answer = print_edits edits

answer_read : parse_edits decoding answer ≡ some (returns (ok edits))
unfolding utf8 parse_edits parse_marker_edits print_edits block_of trim_space has_prefix
    strip_prefix cut_first trim_prefix trim_suffix validate_edits
answer_read = refl

answer_applied : apply_edits (utf8 "a+b") edits ≡ ok (utf8 "a-b")
unfolding utf8 apply_edits count replace_once cut_first strip_prefix
answer_applied = refl

parse_edits-Rewrites_example :
    All IsValidEdit edits × Rewrites (utf8 "a+b") edits (utf8 "a-b") × (utf8 "a-b" ≢ utf8 "a+b")
parse_edits-Rewrites_example =
    parse_edits-Rewrites decoding answer (utf8 "a+b") (utf8 "a-b") edits answer_read answer_applied
