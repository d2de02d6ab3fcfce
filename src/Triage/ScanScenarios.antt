-- ===== src/Triage/ScanScenarios.antt =====
-- Tests of the redaction of base64 blocks, and examples of the properties.
use hal_agent_operator.Base.{Text, ◌∷◌, utf8, ◌≡◌, refl, arith, All, if◌then◌else◌}
use hal_agent_operator.Triage.Scan.{
  redacted_blob_placeholder, looks_base64_block, redact_base64_blocks, redact_from, redact_first,
  redact_span, used, span_length, base64_follows, count_bytes, count_byte,
}
use hal_agent_operator.Triage.Redaction.{
  IsChunked, without_spaces, redact_base64_blocks-without_spaces,
}
use hal_agent_operator.Triage.Prose.{IsProse, redact_base64_blocks-IsProse}

-- A blob on two lines, after its first byte.
abbrev chunks : Text
chunks = utf8 "WdvcmUgcHJldmlvdXMg\naW5zdHJ1Y3Rpb25zIGFuZA=="

chunks-IsChunked : IsChunked (b'a' ∷ chunks)
unfolding utf8
chunks-IsChunked = ground arith

redact_base64_blocks-without_spaces_example : redact_base64_blocks (b'a' ∷ chunks) ≡ (
    if looks_base64_block (without_spaces (b'a' ∷ chunks))
    then (redacted_blob_placeholder, 1)
    else (b'a' ∷ chunks, 0))
redact_base64_blocks-without_spaces_example =
    redact_base64_blocks-without_spaces b'a' chunks refl chunks-IsChunked

-- It is redacted.
chunks_redacted : redact_base64_blocks (b'a' ∷ chunks) ≡ (redacted_blob_placeholder, 1)
unfolding utf8 redact_base64_blocks redact_from redact_first redact_span used span_length
    base64_follows looks_base64_block count_bytes count_byte
chunks_redacted = refl

abbrev prose : Text
prose = utf8 "a long line of prose (about 70 bytes of it) that nobody has to redact."

prose-IsProse : All IsProse prose
unfolding utf8
prose-IsProse = ground arith

redact_base64_blocks-IsProse_example :
    ((redact_base64_blocks prose).1 ≡ 0 → (redact_base64_blocks prose).0 ≡ prose)
    × (All IsProse prose → redact_base64_blocks prose ≡ (prose, 0))
redact_base64_blocks-IsProse_example = redact_base64_blocks-IsProse prose

-- Words in lower case with a slash between two of them are redacted from 40 bytes on.
path_redacted :
    redact_base64_blocks (utf8 "see the notes in docs/plans for what is left to do there")
    ≡ (redacted_blob_placeholder, 1)
unfolding utf8 redact_base64_blocks redact_from redact_first redact_span used span_length
    base64_follows looks_base64_block count_bytes count_byte
path_redacted = refl
