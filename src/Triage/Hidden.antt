-- ===== src/Triage/Hidden.antt =====
-- cmd/triage/scan.go: no HTML comment is left by sanitizeForModel.
use hal_agent_operator.Base.{
  ℕ, zero, suc, Text, [], ◌∷◌, ◌++◌, true, ◌-◌, ◌+◌, ◌≡◌, ◌≢◌, refl, subst, arith, Option, none,
  some, utf8, All, strip_prefix, cut_first, Option-cases, inl, inr, take, Bool-cases,
}
use hal_agent_operator.Triage.Scan.{
  redacted_blob_placeholder, redact_span, redact_first, span_length, used, redact_from,
  redact_base64_blocks, looks_base64_block, is_base64_byte,
}
use hal_agent_operator.Triage.Sanitize.{
  comment_open, comment_close, opened, comment_length, replace_from, remove_comments,
  remove_data_uris, sanitize_for_model,
}
use hal_agent_operator.Triage.Comments.{
  is_none, comment_free, open_less, closed-none, cons_strip, strip_cons, free_in_front,
  remove_comments-comment_free,
}

-- The second text is the first one in which spans are replaced by the placeholder of a blob; the first
-- `skip` bytes belong to a span whose placeholder was written before.
data Redacts : ℕ → Text → Text → Type 0 where
  ended : (skip : ℕ) → Redacts skip [] []
  dropped : (skip b : ℕ) (t o : Text) → Redacts skip t o → Redacts (suc skip) (b ∷ t) o
  kept : (b : ℕ) (t o : Text) → Redacts zero t o → Redacts zero (b ∷ t) (b ∷ o)
  redacted :
      (skip b : ℕ) (t o : Text)
      → Redacts skip t o
      → Redacts zero (b ∷ t) (redacted_blob_placeholder ++ o)

replace_from-Redacts :
    (match : Text → Option ℕ) (skip : ℕ) (t : Text)
    → Redacts skip t (replace_from match redacted_blob_placeholder skip t).0
unfolding replace_from
replace_from-Redacts match skip [] = ended skip
replace_from-Redacts match (suc skip) (b ∷ t) =
    dropped skip b t _ (replace_from-Redacts match skip t)
replace_from-Redacts match zero (b ∷ t) = elim (Option-cases (match (b ∷ t))) [
  | inl e ↦ rw e (kept b t _ (replace_from-Redacts match zero t))
  | inr (n, e) ↦ rw e (redacted (n - 1) b t _ (replace_from-Redacts match (n - 1) t))
]

-- A span that is written as it is.
spelled : (n : ℕ) (t o : Text) → Redacts n t o → Redacts zero t (take n t ++ o)
spelled zero t o r = r
spelled (suc n) [] o (ended _) = ended zero
spelled (suc n) (b ∷ t) o (dropped _ _ _ _ r) = kept b t _ (spelled n t o r)

-- What the loop of redactBase64Blocks writes for a span that starts with `b`.
span-Redacts :
    (n b : ℕ) (t o : Text)
    → Redacts n t o
    → Redacts zero (b ∷ t) ((redact_span (b ∷ take n t)).0 ++ o)
unfolding redact_span
span-Redacts n b t o r = elim (Bool-cases (looks_base64_block (b ∷ take n t))) [
  | inl e ↦ rw e (redacted n b t o r)
  | inr e ↦ rw e (kept b t _ (spelled n t o r))
]

suc_add : (n : ℕ) → suc n ≡ n + 1
suc_add n = omega arith

redact_from-Redacts : (skip : ℕ) (t : Text) → Redacts skip t (redact_from skip t).0
unfolding redact_from redact_first used span_length
redact_from-Redacts skip [] = ended skip
redact_from-Redacts (suc skip) (b ∷ t) = dropped skip b t _ (redact_from-Redacts skip t)
redact_from-Redacts zero (b ∷ t) = elim (Bool-cases (is_base64_byte b)) [
  | inl e ↦
      let n = span_length t in
      let o = (redact_from n t).0 in
      rw e (
        subst (λ k. Redacts zero (b ∷ t) ((redact_span (take k (b ∷ t))).0 ++ o)) (suc_add n)
          (span-Redacts n b t o (redact_from-Redacts n t)))
  | inr e ↦ rw e (kept b t _ (redact_from-Redacts zero t))
]

-- The placeholder ends no comment.
close_in_front :
    (o : Text)
    → cut_first comment_close o ≡ none
    → cut_first comment_close (redacted_blob_placeholder ++ o) ≡ none
unfolding cut_first strip_prefix utf8
close_in_front o h = rw h refl

-- What is spelled in a redacted text, and is no part of a placeholder, was there before.
Redacts-strip_prefix :
    (p t o r : Text)
    → All (λ c. c ≢ b'[') p
    → Redacts zero t o
    → strip_prefix p o ≡ some r
    → (u : Text) × (strip_prefix p t ≡ some u) × Redacts zero u r
unfolding strip_prefix utf8
Redacts-strip_prefix [] t o r n x e = (t, refl, subst (Redacts zero t) (ground arith) x)
Redacts-strip_prefix (a ∷ p) _ _ r n (ended _) e = ground arith
Redacts-strip_prefix (a ∷ p) _ _ r (n, ns) (kept b t o x) e =
    let (same, rest) = cons_strip p o e in
    let (u, there, y) = Redacts-strip_prefix p t o r ns x rest in (u, strip_cons p t same there, y)
Redacts-strip_prefix (a ∷ p) _ _ r (n, ns) (redacted skip b t o x) e = ground arith

cut_first-starts :
    (b : ℕ) (t u : Text)
    → strip_prefix comment_close (b ∷ t) ≡ some u
    → cut_first comment_close (b ∷ t) ≢ none
unfolding cut_first
cut_first-starts b t u e h = cc (rw e at h)

close_kept :
    (b : ℕ) (t o : Text)
    → Redacts zero t o
    → cut_first comment_close (b ∷ t) ≡ none
    → cut_first comment_close o ≡ none
    → cut_first comment_close (b ∷ o) ≡ none
unfolding cut_first
close_kept b t o x h later = elim (Option-cases (strip_prefix comment_close (b ∷ o))) [
  | inl e ↦ rw (e, later) refl
  | inr (r, e) ↦
      let (u, there, y) =
        Redacts-strip_prefix comment_close (b ∷ t) (b ∷ o) r (unfold utf8 in ground arith)
          (kept b t o x) e in
      absurd (cut_first-starts b t u there h)
]

-- No comment ends in a redacted text where none ended before.
Redacts-close :
    (skip : ℕ) (t o : Text)
    → Redacts skip t o
    → cut_first comment_close t ≡ none
    → cut_first comment_close o ≡ none
Redacts-close _ _ _ (ended _) h = h
Redacts-close _ _ _ (dropped skip b t o x) h = Redacts-close skip t o x (open_less b t h)
Redacts-close _ _ _ (kept b t o x) h =
    close_kept b t o x h (Redacts-close zero t o x (open_less b t h))
Redacts-close _ _ _ (redacted skip b t o x) h =
    close_in_front o (Redacts-close skip t o x (open_less b t h))

-- No comment starts in a redacted text where none started before.
none_kept :
    (b : ℕ) (t o : Text)
    → Redacts zero t o
    → comment_length (b ∷ t) ≡ none
    → comment_length (b ∷ o) ≡ none
unfolding comment_length
none_kept b t o x h = elim (Option-cases (strip_prefix comment_open (b ∷ o))) [
  | inl e ↦ rw e refl
  | inr (r, e) ↦
      let (u, there, y) =
        Redacts-strip_prefix comment_open (b ∷ t) (b ∷ o) r (unfold utf8 in ground arith)
          (kept b t o x) e in
      let unclosed = closed-none _ (subst (λ x. opened x ≡ none) there h) in
      rw (e, Redacts-close zero u r y unclosed) refl
]

is_none-none : (x : Option ℕ) → is_none x ≡ true → x ≡ none
is_none-none none h = refl
is_none-none (some n) h = cc

Redacts-comment_free :
    (skip : ℕ) (t o : Text) → Redacts skip t o → comment_free t ≡ true → comment_free o ≡ true
unfolding comment_free
Redacts-comment_free _ _ _ (ended _) h = h
Redacts-comment_free _ _ _ (dropped skip b t o x) h = Redacts-comment_free skip t o x (ground arith)
Redacts-comment_free _ _ _ (kept b t o x) h =
    let here = none_kept b t o x (is_none-none _ (ground arith)) in
    rw (here, Redacts-comment_free zero t o x (ground arith)) refl
Redacts-comment_free _ _ _ (redacted skip b t o x) h =
    free_in_front redacted_blob_placeholder o (unfold utf8 in ground arith)
      (Redacts-comment_free skip t o x (ground arith))

-- Whatever an issue's title or body is, what sanitizeForModel makes of it holds no complete HTML
-- comment: reHTMLComment matches it nowhere, also where the removal of a comment, of a data URI or of a
-- base64 block joins what stood before and behind it.
pub sanitize_for_model-comment_free : (s : Text) → comment_free (sanitize_for_model s).0 ≡ true
unfolding sanitize_for_model remove_data_uris redact_base64_blocks
sanitize_for_model-comment_free s =
    let s1 = (remove_comments s).0 in
    let s2 = (remove_data_uris s1).0 in
    Redacts-comment_free 0 s2 _ (redact_from-Redacts 0 s2)
      (Redacts-comment_free 0 s1 s2 (replace_from-Redacts _ 0 s1) (remove_comments-comment_free s))
