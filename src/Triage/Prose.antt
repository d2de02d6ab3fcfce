-- ===== src/Triage/Prose.antt =====
-- cmd/triage/scan.go: the texts that redactBase64Blocks leaves as they were.
use hal_agent_operator.Base.{
  ℕ, zero, suc, Text, [], ◌∷◌, ◌++◌, true, false, ◌≡◌, inl, inr, refl, sym, ap, ◌∙◌, arith, take,
  drop, All, take-append-drop, Bool-cases,
}
use hal_agent_operator.Triage.Scan.{
  is_upper, is_special, is_base64_byte, Counts, count_byte, count_bytes, no_bytes,
  looks_base64_block, span_length, redact_span, redact_first, used, redact_from,
  redact_base64_blocks,
}
use hal_agent_operator.Triage.Redaction.{redact_from-nil}

-- Where a block does not look like base64, it stays.
redact_span-kept : (s : Text) → (redact_span s).1 ≡ 0 → redact_span s ≡ (s, 0)
unfolding redact_span
redact_span-kept s e = ground arith

span_length-cons :
    (b : ℕ) (t : Text) → is_base64_byte b ≡ true → span_length (b ∷ t) ≡ suc (span_length t)
unfolding span_length
span_length-cons b t h = rw h (omega arith)

redact_first-span :
    (b : ℕ) (t : Text)
    → is_base64_byte b ≡ true
    → redact_first b t ≡ redact_span (b ∷ take (span_length t) t)
unfolding redact_first
redact_first-span b t h = rw (h, span_length-cons b t h) refl

used-span : (b : ℕ) (t : Text) → is_base64_byte b ≡ true → used b t ≡ span_length t
unfolding used
used-span b t h = rw h refl

first_kept :
    (b : ℕ) (t : Text)
    → (redact_first b t).1 ≡ 0
    → (redact_first b t).0 ++ drop (used b t) t ≡ b ∷ t
unfolding redact_first used
first_kept b t e = elim (Bool-cases (is_base64_byte b)) [
  | inl h ↦
      let f = redact_first-span b t h in
      let kept = redact_span-kept _ (ap (λ (x : Text × ℕ). x.1) (sym f) ∙ e) in
      let text : (redact_first b t).0 ≡ b ∷ take (span_length t) t =
        ap (λ (x : Text × ℕ). x.0) (f ∙ kept) in
      ap (λ (x : Text). x ++ drop (used b t) t) text
      ∙ ap (λ n. b ∷ (take (span_length t) t ++ drop n t)) (used-span b t h)
      ∙ ap (λ x. b ∷ x) (take-append-drop (span_length t) t)
  | inr h ↦ rw h refl
]

redact_from-kept :
    (skip : ℕ) (t : Text) → (redact_from skip t).1 ≡ 0 → (redact_from skip t).0 ≡ drop skip t
unfolding redact_from
redact_from-kept zero [] e = refl
redact_from-kept (suc skip) [] e = refl
redact_from-kept (suc skip) (b ∷ t) e = redact_from-kept skip t e
redact_from-kept zero (b ∷ t) e =
    let first : (redact_first b t).1 ≡ 0 = omega (arith, e) in
    let later : (redact_from (used b t) t).1 ≡ 0 = omega (arith, e) in
    rw (redact_from-kept (used b t) t later) (first_kept b t first)

-- Prose: no byte in upper case, and none of + / =.
abbrev pub IsProse : ℕ → Type 0
IsProse b = (is_upper b ≡ false) × (is_special b ≡ false)

count_bytes-prose :
    (t : Text) (n : Counts)
    → All IsProse t
    → ((count_bytes t n).upper ≡ n.upper) × ((count_bytes t n).special ≡ n.special)
unfolding count_bytes count_byte
count_bytes-prose [] n h = (refl, refl)
count_bytes-prose (b ∷ t) n (h, hs) = ground (arith, count_bytes-prose t (count_byte b n) hs)

All-take : (n : ℕ) (t : Text) → All IsProse t → All IsProse (take n t)
All-take zero t h = tt
All-take (suc n) [] h = tt
All-take (suc n) (b ∷ t) (h, hs) = (h, All-take n t hs)

prose_span : (t : Text) → All IsProse t → (redact_span t).1 ≡ 0
unfolding redact_span looks_base64_block
prose_span t h = ground (arith, count_bytes-prose t no_bytes h)

prose_first : (b : ℕ) (t : Text) → All IsProse (b ∷ t) → (redact_first b t).1 ≡ 0
unfolding redact_first
prose_first b t (h, hs) = elim (Bool-cases (is_base64_byte b)) [
  | inl a ↦
      ap (λ (x : Text × ℕ). x.1) (redact_first-span b t a)
      ∙ prose_span (b ∷ take (span_length t) t) (h, All-take (span_length t) t hs)
  | inr a ↦ rw a refl
]

prose_from : (skip : ℕ) (t : Text) → All IsProse t → (redact_from skip t).1 ≡ 0
unfolding redact_from
prose_from skip [] h = ap (λ (x : Text × ℕ). x.1) (redact_from-nil skip)
prose_from (suc skip) (b ∷ t) (h, hs) = prose_from skip t hs
prose_from zero (b ∷ t) (h, hs) = omega (arith, prose_first b t (h, hs), prose_from (used b t) t hs)

pair_eq : (s : Text) (x : Text × ℕ) → x.0 ≡ s → x.1 ≡ 0 → x ≡ (s, 0)
pair_eq s (a, m) e f = rw (e, f) refl

-- redactBase64Blocks returns a text as it was where it counts no substitution, and so it does for
-- all prose without upper case and without + / =, whatever its length.
pub redact_base64_blocks-IsProse :
    (s : Text)
    → ((redact_base64_blocks s).1 ≡ 0 → (redact_base64_blocks s).0 ≡ s)
      × (All IsProse s → redact_base64_blocks s ≡ (s, 0))
unfolding redact_base64_blocks
redact_base64_blocks-IsProse s = (
  redact_from-kept 0 s,
  λ h. pair_eq s _ (redact_from-kept 0 s (prose_from 0 s h)) (prose_from 0 s h),
)
