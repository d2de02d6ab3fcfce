-- ===== src/Triage/Comments.antt =====
-- cmd/triage/scan.go: no HTML comment is left by the first step of sanitizeForModel.
use hal_agent_operator.Base.{
  ℕ, zero, suc, Text, [], ◌∷◌, ◌++◌, Bool, true, false, ◌&&◌, ◌-◌, ◌≡◌, ◌≢◌, refl, sym, ap, ◌∙◌,
  subst, arith, Option, none, some, utf8, All, strip_prefix, cut_first, cut_step, Option-cases, inl,
  inr,
}
use hal_agent_operator.Triage.Sanitize.{
  redacted_comment_placeholder, comment_open, comment_close, closed, opened, comment_length,
  replace_from, remove_comments,
}

abbrev pub is_none : Option ℕ → Bool
is_none none = true
is_none (some n) = false

-- No comment starts anywhere in a text.
unfoldable pub comment_free : Text → Bool
comment_free [] = true
comment_free (b ∷ t) = is_none (comment_length (b ∷ t)) && comment_free t

abbrev cleaned : ℕ → Text → Text
cleaned skip t = (replace_from comment_length redacted_comment_placeholder skip t).0

pub open_less :
    (b : ℕ) (t : Text) → cut_first comment_close (b ∷ t) ≡ none → cut_first comment_close t ≡ none
unfolding cut_first
open_less b t h = go (strip_prefix comment_close (b ∷ t)) (cut_first comment_close t) h
  where
    go : (x : Option Text) (y : Option (Text × Text)) → cut_step b x y ≡ none → y ≡ none
    go none none h = refl
    go none (some z) h = ground arith
    go (some z) y h = ground arith

strip_prefix-close :
    (p t r : Text)
    → strip_prefix p t ≡ some r
    → cut_first comment_close t ≡ none
    → cut_first comment_close r ≡ none
unfolding strip_prefix
strip_prefix-close [] t r e h = subst (λ x. cut_first comment_close x ≡ none) (ground arith) h
strip_prefix-close (a ∷ p) [] r e h = ground arith
strip_prefix-close (a ∷ p) (b ∷ t) r e h = strip_prefix-close p t r (ground arith) (open_less b t h)

pub closed-none : (x : Option (Text × Text)) → (closed x ≡ none) → x ≡ none
closed-none none h = refl
closed-none (some y) h = ground arith

-- No comment starts where none ends.
comment_length-close : (t : Text) → cut_first comment_close t ≡ none → comment_length t ≡ none
unfolding comment_length
comment_length-close t h = elim (Option-cases (strip_prefix comment_open t)) [
  | inl e ↦ rw e refl
  | inr (r, e) ↦ rw (e, strip_prefix-close comment_open t r e h) refl
]

cleaned-none :
    (b : ℕ) (t : Text) → comment_length (b ∷ t) ≡ none → cleaned 0 (b ∷ t) ≡ b ∷ cleaned 0 t
unfolding replace_from
cleaned-none b t e = rw e refl

cleaned-some :
    (b : ℕ) (t : Text) (n : ℕ)
    → comment_length (b ∷ t) ≡ some n
    → cleaned 0 (b ∷ t) ≡ redacted_comment_placeholder ++ cleaned (n - 1) t
unfolding replace_from
cleaned-some b t n e = rw e refl

cleaned-close : (t : Text) → cut_first comment_close t ≡ none → cleaned 0 t ≡ t
unfolding replace_from
cleaned-close [] h = refl
cleaned-close (b ∷ t) h =
    cleaned-none b t (comment_length-close (b ∷ t) h)
    ∙ ap (λ (x : Text). b ∷ x) (cleaned-close t (open_less b t h))

-- A byte that is not the placeholder's first was there before.
cleaned-head :
    (t : Text) (c : ℕ) (o : Text)
    → cleaned 0 t ≡ c ∷ o
    → c ≢ b'['
    → (u : Text) × (t ≡ c ∷ u) × (o ≡ cleaned 0 u)
unfolding replace_from utf8
cleaned-head [] c o e n = ground arith
cleaned-head (b ∷ t) c o e n = elim (Option-cases (comment_length (b ∷ t))) [
  | inl h ↦ let same = sym (cleaned-none b t h) ∙ e in (t, ground arith, ground arith)
  | inr (k, h) ↦ let same = sym (cleaned-some b t k h) ∙ e in ground arith
]

pub strip_cons :
    (p v : Text) {a c : ℕ} {u : Text}
    → a ≡ c
    → strip_prefix p v ≡ some u
    → strip_prefix (a ∷ p) (c ∷ v) ≡ some u
unfolding strip_prefix
strip_cons p v e h = ground arith

pub cons_strip :
    (p o : Text) {a c : ℕ} {r : Text}
    → strip_prefix (a ∷ p) (c ∷ o) ≡ some r
    → (a ≡ c) × (strip_prefix p o ≡ some r)
unfolding strip_prefix
cons_strip p o h = ground arith

cleaned-strip_prefix :
    (p t r : Text)
    → All (λ c. c ≢ b'[') p
    → strip_prefix p (cleaned 0 t) ≡ some r
    → (u : Text) × (strip_prefix p t ≡ some u) × (r ≡ cleaned 0 u)
unfolding strip_prefix
cleaned-strip_prefix [] t r n e = (t, refl, ground arith)
cleaned-strip_prefix (a ∷ p) t r (n, ns) e =
    go (λ (v : Text). cleaned-strip_prefix p v r ns) (cleaned 0 t) refl e
  where
    go :
        ((v : Text)
          → strip_prefix p (cleaned 0 v) ≡ some r
          → (u : Text) × (strip_prefix p v ≡ some u) × (r ≡ cleaned 0 u))
        → (x : Text) → cleaned 0 t ≡ x
        → strip_prefix (a ∷ p) x ≡ some r
        → (u : Text) × (strip_prefix (a ∷ p) t ≡ some u) × (r ≡ cleaned 0 u)
    go later [] q e = ground arith
    go later (c ∷ o) q e =
        let (same, rest) = cons_strip p o e in
        let (v, t_is, o_is) = cleaned-head t c o q (λ k. n (same ∙ k)) in
        let (u, there, r_is) =
          later v (subst (λ (x : Text). strip_prefix p x ≡ some r) o_is rest) in
        (
          u,
          subst (λ (x : Text). strip_prefix (a ∷ p) x ≡ some u) (sym t_is)
              (strip_cons p v same there),
          r_is,
        )

-- Where no comment starts in the text, none starts in what is written of it.
still_none :
    (b : ℕ) (t : Text) → comment_length (b ∷ t) ≡ none → comment_length (b ∷ cleaned 0 t) ≡ none
unfolding comment_length utf8
still_none b t h = elim (Option-cases (strip_prefix comment_open (b ∷ cleaned 0 t))) [
  | inl e ↦ rw e refl
  | inr (r, e) ↦
      let (opens, follows) = cons_strip (utf8 "!--") (cleaned 0 t) e in
      let (u, there, r_is) = cleaned-strip_prefix (utf8 "!--") t r (ground arith) follows in
      let unclosed =
        closed-none _ (subst (λ x. opened x ≡ none) (strip_cons (utf8 "!--") t opens there) h) in
      let same : r ≡ u = r_is ∙ cleaned-close u unclosed in rw (e, same, unclosed) refl
]

-- The placeholder opens no comment.
pub free_in_front :
    (p t : Text) → All (λ c. c ≢ b'<') p → comment_free t ≡ true → comment_free (p ++ t) ≡ true
unfolding comment_free comment_length strip_prefix utf8
free_in_front [] t n h = h
free_in_front (b ∷ p) t (n, ns) h = ground (arith, free_in_front p t ns h)

cleaned-comment_free : (skip : ℕ) (t : Text) → comment_free (cleaned skip t) ≡ true
unfolding replace_from comment_free utf8
cleaned-comment_free skip [] = refl
cleaned-comment_free (suc skip) (b ∷ t) = cleaned-comment_free skip t
cleaned-comment_free zero (b ∷ t) = elim (Option-cases (comment_length (b ∷ t))) [
  | inl h ↦ rw (cleaned-none b t h) (rw (still_none b t h, cleaned-comment_free 0 t) refl)
  | inr (n, h) ↦
      rw (cleaned-some b t n h) (
        free_in_front redacted_comment_placeholder _ (ground arith)
          (cleaned-comment_free (n - 1) t))
]

-- Whatever the text is, and also where a removal joins what stood before and behind it, what is sent
-- on by the first step of sanitizeForModel has no HTML comment left: reHTMLComment matches it nowhere.
pub remove_comments-comment_free : (s : Text) → comment_free (remove_comments s).0 ≡ true
unfolding remove_comments
remove_comments-comment_free s = cleaned-comment_free 0 s
