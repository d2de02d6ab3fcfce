-- ===== src/Base/Clear.antt =====
-- Searches past a text in which no occurrence starts.
use Prim.Native.Nat.{ℕ}
use mathlib.Core.Path.{◌≡◌, refl}
use mathlib.Core.Bool.{Bool, true, false}
use mathlib.Core.Option.{none, some}
use mathlib.Core.List.{[], ◌∷◌, ◌++◌}
use native.Mathlib.Omega.{arith}
use hal_agent_operator.Base.GoText.{Text}
use hal_agent_operator.Base.Search.{strip_prefix, cut_first}

-- No occurrence of `mark` in `p ++ t` starts in `p`.
unfoldable pub is_clear : Text → Text → Text → Bool
is_clear mark [] t = true
is_clear mark (c ∷ p) t =
    let later = is_clear mark p t in
    elim (strip_prefix mark (c ∷ (p ++ t))) [ none ↦ later | some x ↦ false ]

-- A search goes on past a text where no occurrence starts.
pub cut_first-past :
    (mark p t before after : Text)
    → is_clear mark p t ≡ true
    → cut_first mark t ≡ some (before, after)
    → cut_first mark (p ++ t) ≡ some (p ++ before, after)
unfolding is_clear cut_first
cut_first-past mark [] t before after h e = e
cut_first-past mark (c ∷ p) t before after h e =
    let n : strip_prefix mark (c ∷ (p ++ t)) ≡ none = ground arith in
    let later : is_clear mark p t ≡ true = ground arith in
    rw (n, cut_first-past mark p t before after later e) refl

-- No `***` starts in the text.
abbrev pub IsPlain : Text → Type 0
IsPlain [] = Unit
IsPlain (c ∷ t) = (strip_prefix (b'*' ∷ b'*' ∷ b'*' ∷ []) (c ∷ t) ≡ none) × IsPlain t

no_start :
    (m : Text) (c : ℕ) (p t : Text)
    → strip_prefix (b'*' ∷ b'*' ∷ b'*' ∷ []) (c ∷ p) ≡ none
    → strip_prefix (b'*' ∷ b'*' ∷ b'*' ∷ m) (c ∷ (p ++ b'\n' ∷ t)) ≡ none
unfolding strip_prefix
no_start m c [] t h = ground arith
no_start m c (d ∷ []) t h = ground arith
no_start m c (d ∷ e ∷ p) t h = ground arith

-- No mark of three stars and more starts in a plain text that a newline follows.
pub plain_is_clear :
    (m p t : Text) → IsPlain p → is_clear (b'*' ∷ b'*' ∷ b'*' ∷ m) p (b'\n' ∷ t) ≡ true
unfolding is_clear
plain_is_clear m [] t h = refl
plain_is_clear m (c ∷ p) t (h, hs) = ground (arith, no_start m c p t h, plain_is_clear m p t hs)
