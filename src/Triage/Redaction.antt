-- ===== src/Triage/Redaction.antt =====
-- cmd/triage/scan.go: the spaces in a blob do not hide it from redactBase64Blocks.
use hal_agent_operator.Base.{
  ℕ, Text, [], ◌∷◌, true, ◌+◌, ◌≡◌, ◌⊎◌, inl, inr, refl, ap, ◌∙◌, arith, if◌then◌else◌, length,
  take, append-nil, Bool-cases,
}
use hal_agent_operator.Triage.Scan.{
  redacted_blob_placeholder, is_base64_byte, is_space_byte, Counts, count_byte, count_bytes,
  no_bytes, looks_base64_block, base64_follows, span_length, redact_span, in_front_of, redact_first,
  used, redact_from, redact_base64_blocks,
}

-- A byte of the alphabet, or a space.
abbrev pub InSpan : ℕ → Type 0
InSpan b = (is_base64_byte b ≡ true) ⊎ (is_space_byte b ≡ true)

-- A text of the alphabet and spaces that ends with a byte of the alphabet.
abbrev pub IsChunked : Text → Type 0
IsChunked [] = ⊥
IsChunked (b ∷ []) = is_base64_byte b ≡ true
IsChunked (b ∷ c ∷ t) = InSpan b × IsChunked (c ∷ t)

unfoldable pub without_spaces : Text → Text
without_spaces [] = []
without_spaces (b ∷ t) = let rest = without_spaces t in if is_space_byte b then rest else b ∷ rest

space_uncounted : (b : ℕ) (n : Counts) → is_space_byte b ≡ true → count_byte b n ≡ n
unfolding count_byte
space_uncounted b n h = ground arith

-- Spaces change no counter.
count_bytes-without_spaces :
    (t : Text) (n : Counts) → count_bytes (without_spaces t) n ≡ count_bytes t n
unfolding count_bytes without_spaces
count_bytes-without_spaces [] n = refl
count_bytes-without_spaces (b ∷ t) n = elim (Bool-cases (is_space_byte b)) [
  | inl s ↦ rw (s, space_uncounted b n s) (count_bytes-without_spaces t n)
  | inr s ↦ rw s (count_bytes-without_spaces t (count_byte b n))
]

looks-without_spaces : (t : Text) → looks_base64_block (without_spaces t) ≡ looks_base64_block t
unfolding looks_base64_block
looks-without_spaces t = rw (count_bytes-without_spaces t no_bytes) refl

IsChunked-follows : (t : Text) → IsChunked t → base64_follows t ≡ true
unfolding base64_follows
IsChunked-follows [] h = absurd h
IsChunked-follows (b ∷ []) h = ground arith
IsChunked-follows (b ∷ c ∷ t) (h, hs) = ground (arith, IsChunked-follows (c ∷ t) hs)

IsChunked-span : (t : Text) → IsChunked t → span_length t ≡ length t
unfolding span_length
IsChunked-span [] h = absurd h
IsChunked-span (b ∷ []) h = ground arith
IsChunked-span (b ∷ c ∷ t) (h, hs) =
    ground (arith, IsChunked-span (c ∷ t) hs, IsChunked-follows (c ∷ t) hs)

redact_from-all : (t : Text) → redact_from (length t) t ≡ ([], 0)
unfolding redact_from
redact_from-all [] = refl
redact_from-all (b ∷ t) = redact_from-all t

take-all : (t : Text) → take (length t) t ≡ t
take-all [] = refl
take-all (b ∷ t) = rw (take-all t) refl

redact_span-without_spaces :
    (s : Text)
    → redact_span s
      ≡ (if looks_base64_block (without_spaces s) then (redacted_blob_placeholder, 1) else (s, 0))
unfolding redact_span
redact_span-without_spaces s = rw (looks-without_spaces s) refl

in_front_of-nothing : (a : Text × ℕ) → in_front_of a ([], 0) ≡ a
in_front_of-nothing (a, m) = let e : m + 0 ≡ m = omega arith in rw (append-nil a, e) refl

redact_first-whole :
    (b : ℕ) (t : Text)
    → is_base64_byte b ≡ true
    → IsChunked (b ∷ t)
    → redact_first b t ≡ redact_span (b ∷ t)
unfolding redact_first
redact_first-whole b t h c = rw (h, IsChunked-span (b ∷ t) c, take-all t) refl

pub redact_from-nil : (skip : ℕ) → redact_from skip [] ≡ ([], 0)
unfolding redact_from
redact_from-nil skip = refl

tail_used :
    (b : ℕ) (t : Text)
    → is_base64_byte b ≡ true
    → IsChunked (b ∷ t)
    → redact_from (used b t) t ≡ ([], 0)
unfolding used
tail_used b [] h c = redact_from-nil (used b [])
tail_used b (x ∷ t) h (_, c) = rw (h, IsChunked-span (x ∷ t) c) (redact_from-all (x ∷ t))

-- A text of the alphabet and of spaces, with a byte of the alphabet at both ends, is redacted as a
-- whole just where it is without its spaces: the spaces that split a blob do not matter.
pub redact_base64_blocks-without_spaces :
    (b : ℕ) (t : Text)
    → is_base64_byte b ≡ true
    → IsChunked (b ∷ t)
    → redact_base64_blocks (b ∷ t) ≡ (
        if looks_base64_block (without_spaces (b ∷ t))
        then (redacted_blob_placeholder, 1)
        else (b ∷ t, 0))
unfolding redact_base64_blocks redact_from
redact_base64_blocks-without_spaces b t h c =
    ap (λ (x : Text × ℕ). in_front_of (redact_first b t) x) (tail_used b t h c)
    ∙ in_front_of-nothing (redact_first b t)
    ∙ redact_first-whole b t h c
    ∙ redact_span-without_spaces (b ∷ t)
