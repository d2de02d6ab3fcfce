-- ===== src/Fix/Rewrites.antt =====
-- cmd/fix/main.go: what applyEdits does to a file.
use hal_agent_operator.Base.{
  ℕ, Text, List, [], ◌∷◌, ◌++◌, ◌+◌, Result, ok, err, ◌≡◌, ◌≢◌, ◌↔◌, refl, subst, arith,
  text_eq_iff, count, replace_once, OnceApart, count-OnceApart, OnceApart-count, All,
}
use hal_agent_operator.Fix.Edits.{FileEdit, apply_from, changed, apply_edits}

-- An edit that can be applied: its old text is not empty.
abbrev pub HasOld : FileEdit → Type 0
HasOld e = e.old ≢ []

-- Each edit in turn replaces the first occurrence of its old text, behind whose end there is no
-- other; one that overlaps it may be there.
pub data Rewrites : Text → List FileEdit → Text → Type 0 where
  none_left : (t : Text) → Rewrites t [] t
  rewritten :
      (t before after out : Text) (e : FileEdit) (edits : List FileEdit)
      → OnceApart e.old t before after
      → Rewrites (before ++ (e.new ++ after)) edits out
      → Rewrites t (e ∷ edits) out

apply_from-Rewrites :
    (i : ℕ) (t : Text) (edits : List FileEdit) (out : Text)
    → All HasOld edits
    → apply_from i t edits ≡ ok out
    → Rewrites t edits out
unfolding apply_from
apply_from-Rewrites i t [] out h e = subst (Rewrites t []) (ground arith) (none_left t)
apply_from-Rewrites i t (e ∷ edits) out (h, hs) p =
    let once : count t e.old ≡ 1 = ground arith in
    let next : apply_from (i + 1) (replace_once t e.old e.new) edits ≡ ok out = ground arith in
    let (before, after, o, r) = count-OnceApart e.old t e.new h once in
    let later = apply_from-Rewrites (i + 1) (replace_once t e.old e.new) edits out hs next in
    rewritten t before after out e edits o (subst (λ x. Rewrites x edits out) r later)

Rewrites-apply_from :
    (i : ℕ) {t : Text} {edits : List FileEdit} {out : Text}
    → Rewrites t edits out
    → All HasOld edits
    → apply_from i t edits ≡ ok out
unfolding apply_from
Rewrites-apply_from i (none_left t) h = refl
Rewrites-apply_from i (rewritten t before after out e edits o later) (h, hs) =
    let (once, r) = OnceApart-count e.old t e.new before after h o in
    let next = Rewrites-apply_from (i + 1) later hs in rw (once, r, next) refl

changed-eq-ok :
    (content : Text) (x : Result Text) (out : Text)
    → (changed content x ≡ ok out) ↔ ((x ≡ ok out) × (out ≢ content))
unfolding changed
changed-eq-ok content (err x) out = ground arith
changed-eq-ok content (ok t) out = ground (arith, text_eq_iff t content)

-- applyEdits returns a text just where each edit in turn finds its old text, with no other occurrence
-- behind the end of the first one, and replaces that first one, and the result is another text. An
-- occurrence that overlaps the first one is not noticed. The edits are those whose old texts are not
-- empty, as validateEdits makes sure.
pub apply_edits-Rewrites :
    (content out : Text) (edits : List FileEdit)
    → All HasOld edits
    → (apply_edits content edits ≡ ok out) ↔ (Rewrites content edits out × (out ≢ content))
unfolding apply_edits
apply_edits-Rewrites content out edits h =
    let (there, back) = changed-eq-ok content (apply_from 0 content edits) out in
    (
      λ e. (apply_from-Rewrites 0 content edits out h (there e).0, (there e).1),
      λ r. back (Rewrites-apply_from 0 r.0 h, r.1),
    )
