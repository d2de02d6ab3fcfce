-- ===== src/Base/Dots.antt =====
-- A path without the text `..` never goes up.
use Prim.Native.Nat.{ℕ}
use mathlib.Core.Path.{◌≡◌, refl, ap, subst, ◌∙◌}
use mathlib.Core.Logic.{◌≢◌, inl, inr}
use mathlib.Core.Bool.{false}
use mathlib.Core.Option.{Option, none, some}
use mathlib.Core.List.{List, [], ◌∷◌}
use native.Mathlib.Omega.{arith}
use hal_agent_operator.Base.Tests.{◌==◌, Bool-cases}
use hal_agent_operator.Base.GoText.{Text, text_eq, text_eq_iff}
use hal_agent_operator.Base.Search.{cut_first, cut_step, strip_prefix}
use hal_agent_operator.Base.Answer.{contains_text}
use hal_agent_operator.Base.Paths.{in_first, split_slash, dot, dot_dot}
use hal_agent_operator.Base.Walks.{StaysDown, split_slash-cons}

less_dots : (b : ℕ) (t : Text) → cut_first dot_dot (b ∷ t) ≡ none → cut_first dot_dot t ≡ none
unfolding cut_first
less_dots b t h = go (strip_prefix dot_dot (b ∷ t)) (cut_first dot_dot t) h
  where
    go : (x : Option Text) (y : Option (Text × Text)) → cut_step b x y ≡ none → y ≡ none
    go none none h = refl
    go none (some z) h = ground arith
    go (some z) y h = ground arith

first_byte :
    (c : ℕ) (parts : List Text) (b : ℕ) (part : Text) (rest : List Text)
    → in_first c parts ≡ (b ∷ part) ∷ rest
    → c ≡ b
first_byte c [] b part rest e = ground arith
first_byte c (x ∷ parts) b part rest e = ground arith

-- A first element `.` is the first byte of the text.
first_dot :
    (t : Text) (parts : List Text) → split_slash t ≡ dot ∷ parts → (u : Text) × (t ≡ b'.' ∷ u)
unfolding split_slash
first_dot [] parts e = ground arith
first_dot (c ∷ t) parts e = elim (Bool-cases (c == b'/')) [
  | inl s ↦ ground arith
  | inr n ↦
      let c_is : c ≡ b'.' = first_byte c (split_slash t) b'.' [] parts (ground arith) in
      (t, ground arith)
]

starts_dots : (u : Text) → cut_first dot_dot (b'.' ∷ b'.' ∷ u) ≢ none
unfolding cut_first strip_prefix
starts_dots u h = ground arith

tail_of : (c d : ℕ) (x y : Text) → c ∷ x ≡ d ∷ y → x ≡ y
tail_of c d x y e = ground arith

both_dots :
    (c : ℕ) (part x t u : Text) → c ∷ part ≡ b'.' ∷ x → t ≡ b'.' ∷ u → c ∷ t ≡ b'.' ∷ b'.' ∷ u
both_dots c part x t u e h = ground arith

not_dots :
    (c : ℕ) (part : Text) (parts : List Text) (t : Text)
    → split_slash t ≡ part ∷ parts
    → cut_first dot_dot (c ∷ t) ≡ none
    → text_eq (c ∷ part) dot_dot ≡ false
not_dots c part parts t e h = elim (Bool-cases (text_eq (c ∷ part) dot_dot)) [
  | inr f ↦ f
  | inl same ↦
      let whole : c ∷ part ≡ dot_dot = (text_eq_iff (c ∷ part) dot_dot).0 same in
      let (u, t_is) = first_dot t parts (e ∙ ap (λ x. x ∷ parts) (tail_of c b'.' part dot whole)) in
      absurd (
        starts_dots u
          (subst (λ x. cut_first dot_dot x ≡ none) (both_dots c part dot t u whole t_is) h))
]

StaysDown-cons :
    (c : ℕ) (t : Text)
    → cut_first dot_dot (c ∷ t) ≡ none
    → (part : Text) (parts : List Text) → split_slash t ≡ part ∷ parts
    → StaysDown (part ∷ parts)
    → StaysDown (split_slash (c ∷ t))
unfolding split_slash
StaysDown-cons c t h part parts e s = elim (Bool-cases (c == b'/')) [
  | inl y ↦ rw (y, e) (refl, s)
  | inr n ↦ rw (n, e) (not_dots c part parts t e h, s.1)
]

undotted-StaysDown : (t : Text) → cut_first dot_dot t ≡ none → StaysDown (split_slash t)
unfolding split_slash
undotted-StaysDown [] h = (refl, tt)
undotted-StaysDown (c ∷ t) h =
    let (part, parts, e) = split_slash-cons t in
    StaysDown-cons c t h part parts e (subst StaysDown e (undotted-StaysDown t (less_dots c t h)))

pub contains_text-StaysDown :
    (t : Text) → contains_text t dot_dot ≡ false → StaysDown (split_slash t)
unfolding contains_text
contains_text-StaysDown t h = undotted-StaysDown t (ground (arith, h))
