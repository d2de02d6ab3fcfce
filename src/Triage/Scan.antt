-- ===== src/Triage/Scan.antt =====
-- cmd/triage/scan.go: redaction of base64 blocks.
use hal_agent_operator.Base.{
  ℕ, zero, suc, Text, [], ◌∷◌, ◌++◌, Bool, true, false, ◌&&◌, ◌||◌, ◌+◌, ◌*◌, ◌==◌, leb, ltb, utf8,
  if◌then◌else◌, take,
}

abbrev pub redacted_blob_placeholder : Text
redacted_blob_placeholder = utf8 "[base64 blob redacted by prefilter - not decoded]"

abbrev pub base64_min_len : ℕ
base64_min_len = 40

abbrev pub is_upper : ℕ → Bool
is_upper b = leb b'A' b && leb b b'Z'

abbrev pub is_lower : ℕ → Bool
is_lower b = leb b'a' b && leb b b'z'

abbrev pub is_decimal : ℕ → Bool
is_decimal b = leb b'0' b && leb b b'9'

abbrev pub is_special : ℕ → Bool
is_special b = (b == b'+') || (b == b'/') || (b == b'=')

abbrev pub is_base64_byte : ℕ → Bool
is_base64_byte b = is_upper b || is_lower b || is_decimal b || is_special b

abbrev pub is_space_byte : ℕ → Bool
is_space_byte b = (b == 0x20) || (b == 0x09) || (b == 0x0D) || (b == 0x0A)

-- The counters of looksBase64Block.
pub record Counts : Type 0 where
  pub non_space : ℕ
  pub upper : ℕ
  pub lower : ℕ
  pub special : ℕ

-- One round of its loop.
unfoldable pub count_byte : ℕ → Counts → Counts
count_byte b n =
    if is_upper b
    then record n { upper = n.upper + 1; non_space = n.non_space + 1 }
    else if is_lower b
    then record n { lower = n.lower + 1; non_space = n.non_space + 1 }
    else if is_decimal b
    then record n { non_space = n.non_space + 1 }
    else if is_special b
    then record n { special = n.special + 1; non_space = n.non_space + 1 }
    else n

unfoldable pub count_bytes : Text → Counts → Counts
unfolding count_byte
count_bytes [] n = n
count_bytes (b ∷ span) n = count_bytes span (count_byte b n)

abbrev pub no_bytes : Counts
no_bytes = record { non_space = 0; upper = 0; lower = 0; special = 0 }

-- `float64(upper) >= 0.25*float64(nonSpace)`: a quarter of a count is exact in a float64.
unfoldable pub looks_base64_block : Text → Bool
unfolding count_bytes
looks_base64_block span =
    let n = count_bytes span no_bytes in
    if ltb n.non_space base64_min_len
    then false
    else if ltb 0 n.special
    then true
    else ltb 0 n.upper && ltb 0 n.lower && leb n.non_space (4 * n.upper)

-- After spaces there is more of the alphabet.
unfoldable pub base64_follows : Text → Bool
base64_follows [] = false
base64_follows (b ∷ t) =
    let later = base64_follows t in if is_space_byte b then later else is_base64_byte b

-- The length of what belongs to a span at the start of a text: bytes of the alphabet, and spaces
-- where more of the alphabet follows.
unfoldable pub span_length : Text → ℕ
span_length [] = 0
span_length (b ∷ t) =
    let more = span_length t in
    if is_base64_byte b
    then more + 1
    else if is_space_byte b && base64_follows t
    then more + 1
    else 0

-- What stands for a span, and the substitutions that it adds.
unfoldable pub redact_span : Text → Text × ℕ
redact_span span = if looks_base64_block span then (redacted_blob_placeholder, 1) else (span, 0)

abbrev pub in_front_of : Text × ℕ → Text × ℕ → Text × ℕ
in_front_of (a, m) (b, n) = (a ++ b, m + n)

-- What the outer loop writes for the span or byte at the start of a text, and how many bytes after
-- the first it has used up.
unfoldable pub redact_first : ℕ → Text → Text × ℕ
redact_first b t =
    if is_base64_byte b then redact_span (take (span_length (b ∷ t)) (b ∷ t)) else (b ∷ [], 0)

unfoldable pub used : ℕ → Text → ℕ
used b t = if is_base64_byte b then span_length t else 0

-- The outer loop; the first `skip` bytes are used up.
unfoldable pub redact_from : ℕ → Text → Text × ℕ
redact_from skip [] = ([], 0)
redact_from (suc skip) (b ∷ t) = redact_from skip t
redact_from zero (b ∷ t) = in_front_of (redact_first b t) (redact_from (used b t) t)

unfoldable pub redact_base64_blocks : Text → Text × ℕ
redact_base64_blocks s = redact_from 0 s
