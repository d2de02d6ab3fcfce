-- ===== src/Triage/Sanitize.antt =====
-- cmd/triage/scan.go: sanitizeForModel, with reHTMLComment and reRedactDataURI as matchers,
--   (?is)<!--.*?-->    (?i)data:[^;\s]+;base64,[A-Za-z0-9+/=]+
use hal_agent_operator.Base.{
  ℕ, zero, suc, Text, [], ◌∷◌, Bool, ◌&&◌, ◌||◌, ◌+◌, ◌-◌, ◌==◌, Option, none, some, utf8, length,
  has_prefix, strip_prefix, cut_first, if◌then◌else◌,
}
use hal_agent_operator.Triage.Scan.{
  redacted_blob_placeholder, is_lower, is_base64_byte, in_front_of, redact_base64_blocks,
}
use hal_agent_operator.Triage.Shell.{long_s, kelvin}

abbrev pub redacted_comment_placeholder : Text
redacted_comment_placeholder = utf8 "[html comment removed by prefilter]"

abbrev pub comment_open : Text
comment_open = utf8 "<!--"

abbrev pub comment_close : Text
comment_close = utf8 "-->"

-- What a match takes behind the opening of a comment: up to the first close.
abbrev pub closed : Option (Text × Text) → Option ℕ
closed none = none
closed (some x) = some (length comment_open + (length x.0 + length comment_close))

abbrev pub opened : Option Text → Option ℕ
opened none = none
opened (some rest) = closed (cut_first comment_close rest)

-- The length of the match at the start of a text.
unfoldable pub comment_length : Text → Option ℕ
comment_length t = opened (strip_prefix comment_open t)

-- A small letter or another character of an expression under (?i).
unfoldable pub after_char : ℕ → Text → Option Text
after_char c [] = none
after_char c (b ∷ t) =
    if b == c || (is_lower c && b + 32 == c)
    then some t
    else if c == b's'
    then strip_prefix long_s (b ∷ t)
    else none

unfoldable pub after_folded : Text → Text → Option Text
unfolding after_char
after_folded [] t = some t
after_folded (c ∷ p) t = elim (after_char c t) [ none ↦ none | some rest ↦ after_folded p rest ]

-- `\s`
abbrev pub is_blank : ℕ → Bool
is_blank b = (b == 0x20) || (b == 0x09) || (b == 0x0A) || (b == 0x0C) || (b == 0x0D)

-- `[^;\s]*;`
unfoldable pub after_media : Text → Option Text
after_media [] = none
after_media (b ∷ t) =
    let later = after_media t in if b == b';' then some t else if is_blank b then none else later

-- `[^;\s]+;`
unfoldable pub after_some_media : Text → Option Text
after_some_media [] = none
after_some_media (b ∷ t) = if b == b';' || is_blank b then none else after_media t

-- The bytes of the character at the start that belongs to `[A-Za-z0-9+/=]` under (?i).
unfoldable pub payload_width : Text → ℕ
payload_width [] = 0
payload_width (b ∷ t) =
    if is_base64_byte b
    then 1
    else if has_prefix (b ∷ t) long_s
    then 2
    else if has_prefix (b ∷ t) kelvin
    then 3
    else 0

-- The first `skip` bytes belong to a character that is counted.
unfoldable pub payload_length : ℕ → Text → ℕ
payload_length skip [] = 0
payload_length (suc skip) (b ∷ t) = payload_length skip t + 1
payload_length zero (b ∷ t) =
    let w = payload_width (b ∷ t) in
    let more = payload_length (w - 1) t + 1 in if w == 0 then 0 else more

-- The match takes what is in front of the payload, and the payload.
abbrev pub with_payload : Text → Option Text → Option ℕ
with_payload t none = none
with_payload t (some rest) =
    let n = payload_length 0 rest in if n == 0 then none else some (length t - length rest + n)

abbrev pub after_encoding : Option Text → Option Text
after_encoding none = none
after_encoding (some t) = after_folded (utf8 "base64,") t

abbrev pub after_scheme : Option Text → Option Text
after_scheme none = none
after_scheme (some t) = after_encoding (after_some_media t)

unfoldable pub data_uri_length : Text → Option ℕ
data_uri_length t = with_payload t (after_scheme (after_folded (utf8 "data:") t))

-- What stands for a match or for a byte that starts none, and the substitutions that it adds.
abbrev pub substitute : Text → ℕ → Option ℕ → Text × ℕ
substitute placeholder b none = (b ∷ [], 0)
substitute placeholder b (some n) = (placeholder, 1)

abbrev pub match_rest : Option ℕ → ℕ
match_rest none = 0
match_rest (some n) = n - 1

-- ReplaceAllStringFunc, where no match is empty, with the count of the matches; the first `skip`
-- bytes belong to the match before.
unfoldable pub replace_from : (Text → Option ℕ) → Text → ℕ → Text → Text × ℕ
replace_from match placeholder skip [] = ([], 0)
replace_from match placeholder (suc skip) (b ∷ t) = replace_from match placeholder skip t
replace_from match placeholder zero (b ∷ t) =
    let here = match (b ∷ t) in
    in_front_of (substitute placeholder b here) (replace_from match placeholder (match_rest here) t)

unfoldable pub remove_comments : Text → Text × ℕ
remove_comments s = replace_from comment_length redacted_comment_placeholder 0 s

unfoldable pub remove_data_uris : Text → Text × ℕ
remove_data_uris s = replace_from data_uri_length redacted_blob_placeholder 0 s

unfoldable pub sanitize_for_model : Text → Text × ℕ
sanitize_for_model s =
    let (s1, n1) = remove_comments s in
    let (s2, n2) = remove_data_uris s1 in let (s3, m) = redact_base64_blocks s2 in (s3, n1 + n2 + m)
