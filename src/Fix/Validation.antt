-- ===== src/Fix/Validation.antt =====
-- cmd/fix/main.go: what validateEdits lets through, and what the edits of an answer do to a file.
use hal_agent_operator.Base.{
  ℕ, Text, List, [], ◌∷◌, ◌+◌, Option, none, some, ok, err, ◌≡◌, ◌≢◌, ◌↔◌, inl, inr, refl, sym, ap,
  ◌∙◌, subst, arith, is_empty, text_eq, text_eq_iff, All, All-map, Result-cases, Bool-cases, true,
  false,
}
use hal_agent_operator.Fix.Edits.{FileEdit, validate_from, validate_edits, apply_edits}
use hal_agent_operator.Base.{Outcome, panics, returns}
use hal_agent_operator.Fix.Markers.{validated, parse_marker_edits}
use hal_agent_operator.Fix.Rewrites.{Rewrites, apply_edits-Rewrites}

-- An edit that validateEdits accepts.
abbrev pub IsValidEdit : FileEdit → Type 0
IsValidEdit e = (e.old ≢ []) × (e.old ≢ e.new)

is_empty_iff : (t : Text) → (is_empty t ≡ true) ↔ (t ≡ [])
is_empty_iff [] = ground arith
is_empty_iff (c ∷ t) = ground arith

-- A round of the loop that ends well.
abbrev Round : ℕ → FileEdit → List FileEdit → List FileEdit → Type 0
Round i e edits es =
    IsValidEdit e
    × ((rest : List FileEdit) × (validate_from (i + 1) edits ≡ ok rest) × (es ≡ e ∷ rest))

validate_from-Round :
    (i : ℕ) (e : FileEdit) (edits es : List FileEdit)
    → validate_from i (e ∷ edits) ≡ ok es
    → Round i e edits es
unfolding validate_from
validate_from-Round i e edits es h = elim (Bool-cases (is_empty e.old)) [
  | inl a ↦ ground arith
  | inr a ↦ elim (Bool-cases (text_eq e.old e.new)) [
    | inl b ↦ ground arith
    | inr b ↦ elim (Result-cases (validate_from (i + 1) edits)) [
      | inr (x, c) ↦ ground arith
      | inl (rest, c) ↦
          let old : e.old ≢ [] = λ n. ground (arith, is_empty_iff e.old, n, a) in
          let change : e.old ≢ e.new = λ n. ground (arith, text_eq_iff e.old e.new, n, b) in
          ((old, change), (rest, c, ground arith))
    ]
  ]
]

validate_from-ok :
    (i : ℕ) (edits es : List FileEdit)
    → validate_from i edits ≡ ok es
    → (es ≡ edits) × All IsValidEdit edits
unfolding validate_from
validate_from-ok i [] es h = (ground arith, tt)
validate_from-ok i (e ∷ edits) es h =
    let (valid, (rest, r, same)) = validate_from-Round i e edits es h in
    let (later, all) = validate_from-ok (i + 1) edits rest r in
    (same ∙ ap (λ x. e ∷ x) later, (valid, all))

validate_from-valid :
    (i : ℕ) (edits : List FileEdit) → All IsValidEdit edits → validate_from i edits ≡ ok edits
unfolding validate_from
validate_from-valid i [] h = refl
validate_from-valid i (e ∷ edits) ((old, change), hs) =
    let a : is_empty e.old ≡ false = ground (arith, is_empty_iff e.old) in
    let b : text_eq e.old e.new ≡ false = ground (arith, text_eq_iff e.old e.new) in
    rw (a, b, validate_from-valid (i + 1) edits hs) refl

-- validateEdits returns the edits that it is given just where there are some and each has an old
-- text that is not empty and not the new one; it returns no other edits.
pub validate_edits-IsValidEdit :
    (edits es : List FileEdit)
    → (validate_edits edits ≡ ok es) ↔ ((es ≡ edits) × (edits ≢ []) × All IsValidEdit edits)
unfolding validate_edits
validate_edits-IsValidEdit [] es = (λ h. ground arith, λ h. absurd (h.1 refl))
validate_edits-IsValidEdit (e ∷ edits) es = (
  λ h. let (same, all) = validate_from-ok 0 (e ∷ edits) es h in (same, λ n. ground arith, all),
  λ h. validate_from-valid 0 (e ∷ edits) h.2 ∙ ap ok (sym h.0),
)

validated-ok :
    (x : Option (Outcome (List FileEdit))) (es : List FileEdit)
    → validated x ≡ some (returns (ok es))
    → (edits : List FileEdit) × (validate_edits edits ≡ ok es)
unfolding validated
validated-ok none es h = ground arith
validated-ok (some panics) es h = ground arith
validated-ok (some (returns (err e))) es h = ground arith
validated-ok (some (returns (ok edits))) es h = (edits, ground arith)

pub validate_edits-valid :
    (given edits : List FileEdit) → validate_edits given ≡ ok edits → All IsValidEdit edits
validate_edits-valid given edits v =
    let (same, _, all) = (validate_edits-IsValidEdit given edits).0 v in
    subst (All IsValidEdit) (sym same) all

pub parse_marker_edits-valid :
    (raw : Text) (edits : List FileEdit)
    → parse_marker_edits raw ≡ some (returns (ok edits))
    → All IsValidEdit edits
unfolding parse_marker_edits
parse_marker_edits-valid raw edits h =
    let (given, v) = validated-ok _ edits h in validate_edits-valid given edits v

-- Edits with old texts rewrite a file where they can be applied.
pub valid-Rewrites :
    (content out : Text) (edits : List FileEdit)
    → All IsValidEdit edits
    → apply_edits content edits ≡ ok out
    → Rewrites content edits out × (out ≢ content)
valid-Rewrites content out edits valid a =
    (apply_edits-Rewrites content out edits (All-map edits (λ e x. x.0) valid)).0 a

-- Where parseMarkerEdits returns the edits of an answer and applyEdits a text, each edit in turn
-- found its old text, with no other occurrence behind the end of the first one, and replaced that
-- first one, and the file was changed.
pub marker_edits-Rewrites :
    (raw content out : Text) (edits : List FileEdit)
    → parse_marker_edits raw ≡ some (returns (ok edits))
    → apply_edits content edits ≡ ok out
    → Rewrites content edits out × (out ≢ content)
marker_edits-Rewrites raw content out edits h a =
    valid-Rewrites content out edits (parse_marker_edits-valid raw edits h) a
