-- ===== src/Base/Occurrences.antt =====
-- What cut_first, count and replace_once say of the occurrences of a text.
use Prim.Native.Nat.{ℕ, ◌+◌, ◌-◌, ◌≤◌}
use mathlib.Core.Path.{◌≡◌, refl, sym, ap, ◌∙◌, subst}
use mathlib.Core.Logic.{◌↔◌, ◌≢◌}
use mathlib.Core.Option.{Option, none, some}
use mathlib.Core.List.{[], ◌∷◌, ◌++◌}
use native.Mathlib.Omega.{arith}
use hal_agent_operator.Base.Tests.{if◌then◌else◌}
use hal_agent_operator.Base.Lists.{length}
use hal_agent_operator.Base.GoText.{Text, is_empty}
use hal_agent_operator.Base.Search.{
  strip_prefix, cut_first, in_front, cut_step, hits, taken, count_from, count, replaced,
  replace_once,
}

-- `t` has `sub` between `before` and `after`.
abbrev pub Splits : Text → Text → Text → Text → Type 0
Splits sub t before after = t ≡ before ++ (sub ++ after)

-- `sub` occurs nowhere in `t`.
abbrev pub NowhereIn : Text → Text → Type 0
NowhereIn sub t = (before after : Text) → ¬ Splits sub t before after

-- The first occurrence.
abbrev pub FirstIn : Text → Text → Text → Text → Type 0
FirstIn sub t before after =
    Splits sub t before after × ((b a : Text) → Splits sub t b a → length before ≤ length b)

pub strip_prefix_iff : (sub t after : Text) → (strip_prefix sub t ≡ some after) ↔ (t ≡ sub ++ after)
unfolding strip_prefix
strip_prefix_iff [] t after = ground arith
strip_prefix_iff (a ∷ p) [] after = ground arith
strip_prefix_iff (a ∷ p) (b ∷ t) after = ground (arith, strip_prefix_iff p t after)

-- What a search finds.
abbrev Finds : Text → Text → Option (Text × Text) → Type 0
Finds sub t none = NowhereIn sub t
Finds sub t (some x) = FirstIn sub t x.0 x.1

-- An occurrence in `c ∷ t` where none starts at `c` is one byte further in `t`.
further :
    (sub t b a : Text) (c : ℕ)
    → strip_prefix sub (c ∷ t) ≡ none
    → Splits sub (c ∷ t) b a
    → (b' : Text) × Splits sub t b' a × (length b ≡ length b' + 1)
further sub t [] a c e s = absurd (ground (arith, e, (strip_prefix_iff sub (c ∷ t) a).1 s))
further sub t (x ∷ b) a c e s = (b, ground arith, omega arith)

in_front-Finds :
    (sub t : Text) (c : ℕ) (x : Option (Text × Text))
    → strip_prefix sub (c ∷ t) ≡ none
    → Finds sub t x
    → Finds sub (c ∷ t) (in_front c x)
in_front-Finds sub t c none e h = λ b a s. let (b', s', _) = further sub t b a c e s in h b' a s'
in_front-Finds sub t c (some (b, a)) e (s, first) = (
  ap (λ x. c ∷ x) s,
  λ b2 a2 s2.
      let (b', s', l) = further sub t b2 a2 c e s2 in let before = first b' a2 s' in omega arith,
)

at_start-Finds : (sub t after : Text) → t ≡ sub ++ after → Finds sub t (some ([], after))
at_start-Finds sub t after e = (e, λ b a s. omega arith)

empty-Finds : (sub : Text) → Finds sub [] (if is_empty sub then some ([], []) else none)
empty-Finds [] = (refl, λ b a s. omega arith)
empty-Finds (c ∷ sub) = nowhere
  where
    nowhere : (b a : Text) → ¬ Splits (c ∷ sub) [] b a
    nowhere [] a = ground arith
    nowhere (x ∷ b) a = ground arith

cut_first-Finds : (sub t : Text) → Finds sub t (cut_first sub t)
unfolding cut_first
cut_first-Finds sub [] = empty-Finds sub
cut_first-Finds sub (c ∷ t) = go (strip_prefix sub (c ∷ t)) refl (cut_first-Finds sub t)
  where
    go :
        (o : Option Text)
        → strip_prefix sub (c ∷ t) ≡ o
        → Finds sub t (cut_first sub t)
        → Finds sub (c ∷ t) (cut_step c o (cut_first sub t))
    go none e later = in_front-Finds sub t c (cut_first sub t) e later
    go (some after) e later =
        at_start-Finds sub (c ∷ t) after ((strip_prefix_iff sub (c ∷ t) after).0 e)

count_from-skip : (sub r t : Text) → count_from sub (length r) (r ++ t) ≡ count_from sub 0 t
unfolding count_from
count_from-skip sub [] t = refl
count_from-skip sub (c ∷ r) t = count_from-skip sub r t

-- The count by the search: one more than in what follows the first occurrence.
abbrev counted : Text → Option (Text × Text) → ℕ
counted sub none = 0
counted sub (some x) = 1 + count_from sub 0 x.1

counted-in_front :
    (sub : Text) (c : ℕ) (x : Option (Text × Text)) → counted sub (in_front c x) ≡ counted sub x
counted-in_front sub c none = refl
counted-in_front sub c (some x) = refl

count_from-counted :
    (x : ℕ) (sub t : Text) → count_from (x ∷ sub) 0 t ≡ counted (x ∷ sub) (cut_first (x ∷ sub) t)
unfolding count_from cut_first
count_from-counted x sub [] = refl
count_from-counted x sub (c ∷ t) =
    go (strip_prefix (x ∷ sub) (c ∷ t)) refl (count_from-counted x sub t)
  where
    go :
        (o : Option Text)
        → strip_prefix (x ∷ sub) (c ∷ t) ≡ o
        → count_from (x ∷ sub) 0 t ≡ counted (x ∷ sub) (cut_first (x ∷ sub) t)
        → hits o + count_from (x ∷ sub) (taken (x ∷ sub) o) t
          ≡ counted (x ∷ sub) (cut_step c o (cut_first (x ∷ sub) t))
    go none e later =
        omega arith ∙ later ∙ sym (counted-in_front (x ∷ sub) c (cut_first (x ∷ sub) t))
    go (some after) e later =
        let same : c ∷ t ≡ x ∷ (sub ++ after) = (strip_prefix_iff (x ∷ sub) (c ∷ t) after).0 e in
        let tails : t ≡ sub ++ after = ground arith in
        let less : length (x ∷ sub) - 1 ≡ length sub = omega arith in
        rw (tails, less) (ap (λ n. 1 + n) (count_from-skip (x ∷ sub) sub after))

-- The text occurs once as strings.Count counts, which leaves out what overlaps: no occurrence starts
-- behind the end of the first one. One that overlaps the first is not excluded.
abbrev pub OnceApart : Text → Text → Text → Text → Type 0
OnceApart sub t before after = FirstIn sub t before after × NowhereIn sub after

counted-none : (x : ℕ) (sub t : Text) → count_from (x ∷ sub) 0 t ≡ 0 → cut_first (x ∷ sub) t ≡ none
counted-none x sub t e = go (cut_first (x ∷ sub) t) (sym (count_from-counted x sub t) ∙ e)
  where
    go : (o : Option (Text × Text)) → counted (x ∷ sub) o ≡ 0 → o ≡ none
    go none h = refl
    go (some y) h = absurd (omega (arith, h))

NowhereIn-counted : (x : ℕ) (sub t : Text) → NowhereIn (x ∷ sub) t → count_from (x ∷ sub) 0 t ≡ 0
NowhereIn-counted x sub t n =
    count_from-counted x sub t ∙ go (cut_first (x ∷ sub) t) (cut_first-Finds (x ∷ sub) t)
  where
    go : (o : Option (Text × Text)) → Finds (x ∷ sub) t o → counted (x ∷ sub) o ≡ 0
    go none h = refl
    go (some y) (s, _) = absurd (n y.0 y.1 s)

cons_count-OnceApart :
    (x : ℕ) (sub t new : Text)
    → count t (x ∷ sub) ≡ 1
    → (before after : Text) × OnceApart (x ∷ sub) t before after
      × (replace_once t (x ∷ sub) new ≡ before ++ (new ++ after))
unfolding count replace_once
cons_count-OnceApart x sub t new e =
    go (cut_first (x ∷ sub) t) refl (cut_first-Finds (x ∷ sub) t)
      (sym (count_from-counted x sub t) ∙ e)
  where
    go :
        (o : Option (Text × Text))
        → cut_first (x ∷ sub) t ≡ o
        → Finds (x ∷ sub) t o
        → counted (x ∷ sub) o ≡ 1
        → (before after : Text) × OnceApart (x ∷ sub) t before after
          × (replace_once t (x ∷ sub) new ≡ before ++ (new ++ after))
    go none c h n = absurd (omega (arith, n))
    go (some (b, a)) c h n =
        let later : cut_first (x ∷ sub) a ≡ none = counted-none x sub a (omega (arith, n)) in
        let none_after = subst (Finds (x ∷ sub) a) later (cut_first-Finds (x ∷ sub) a) in
        (b, a, (h, none_after), ap (replaced t new) c)

same_start : (b b' r r' : Text) → length b ≡ length b' → b ++ r ≡ b' ++ r' → (b ≡ b') × (r ≡ r')
same_start [] [] r r' l e = (refl, e)
same_start [] (x ∷ b') r r' l e = absurd (omega (arith, l))
same_start (x ∷ b) [] r r' l e = absurd (omega (arith, l))
same_start (x ∷ b) (y ∷ b') r r' l e = ground (arith, same_start b b' r r')

OnceApart-cons_count :
    (x : ℕ) (sub t new before after : Text)
    → OnceApart (x ∷ sub) t before after
    → (count t (x ∷ sub) ≡ 1) × (replace_once t (x ∷ sub) new ≡ before ++ (new ++ after))
unfolding count replace_once
OnceApart-cons_count x sub t new before after ((s, first), nowhere) =
    go (cut_first (x ∷ sub) t) refl (cut_first-Finds (x ∷ sub) t)
  where
    go :
        (o : Option (Text × Text))
        → cut_first (x ∷ sub) t ≡ o
        → Finds (x ∷ sub) t o
        → (count t (x ∷ sub) ≡ 1) × (replace_once t (x ∷ sub) new ≡ before ++ (new ++ after))
    go none c h = absurd (h before after s)
    go (some (b, a)) c (s', first') =
        let l1 = first b a s' in
        let l2 = first' before after s in
        let (eb, er) =
          same_start b before ((x ∷ sub) ++ a) ((x ∷ sub) ++ after) (omega arith) (sym s' ∙ s) in
        let ea : a ≡ after = (same_start (x ∷ sub) (x ∷ sub) a after refl er).1 in
        let n = NowhereIn-counted x sub after nowhere in
        let m = count_from-counted x sub t ∙ ap (counted (x ∷ sub)) c in
        (
          m ∙ ap (λ y. 1 + count_from (x ∷ sub) 0 y) ea ∙ omega (arith, n),
          ap (replaced t new) c ∙ rw (eb, ea),
        )

-- What a search that succeeds finds.
pub cut_first-FirstIn :
    (sub t before after : Text)
    → cut_first sub t ≡ some (before, after)
    → FirstIn sub t before after
cut_first-FirstIn sub t before after e = subst (Finds sub t) e (cut_first-Finds sub t)

-- A text that is not empty and whose count is 1 occurs once, and it is what replace_once replaces.
pub count-OnceApart :
    (sub t new : Text)
    → sub ≢ []
    → count t sub ≡ 1
    → (before after : Text) × OnceApart sub t before after
      × (replace_once t sub new ≡ before ++ (new ++ after))
count-OnceApart [] t new n e = absurd (n refl)
count-OnceApart (x ∷ sub) t new n e = cons_count-OnceApart x sub t new e

-- The other way round: what occurs once has the count 1, and is replaced there.
pub OnceApart-count :
    (sub t new before after : Text)
    → sub ≢ []
    → OnceApart sub t before after
    → (count t sub ≡ 1) × (replace_once t sub new ≡ before ++ (new ++ after))
OnceApart-count [] t new before after n h = absurd (n refl)
OnceApart-count (x ∷ sub) t new before after n h = OnceApart-cons_count x sub t new before after h
