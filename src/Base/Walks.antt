-- ===== src/Base/Walks.antt =====
-- filepath.Join of a directory and a path that never goes up: the result lies in the directory.
use mathlib.Core.Path.{◌≡◌, refl, sym, ap, ◌∙◌}
use mathlib.Core.Logic.{◌≢◌, ◌⊎◌, inl, inr}
use mathlib.Core.Bool.{Bool, true, false, ◌||◌}
use mathlib.Core.List.{List, [], ◌∷◌, ◌++◌, reverse, append_assoc, append-nil, reverse-append}
use native.Mathlib.Omega.{arith}
use hal_agent_operator.Base.Tests.{◌==◌, Bool-cases}
use hal_agent_operator.Base.Lists.{All}
use hal_agent_operator.Base.GoText.{Text, text_eq, is_empty}
use hal_agent_operator.Base.Search.{has_prefix, strip_prefix}
use hal_agent_operator.Base.Paths.{
  split_slash, joined, dot, dot_dot, slash, step_path, walk_path, clean_path, join_path,
}

pub split_slash-cons :
    (t : Text) → (part : Text) × (parts : List Text) × (split_slash t ≡ part ∷ parts)
unfolding split_slash
split_slash-cons [] = ([], [], refl)
split_slash-cons (c ∷ t) =
    let (part, parts, e) = split_slash-cons t in
    elim (Bool-cases (c == b'/')) [
      | inl s ↦ ([], split_slash t, rw s refl)
      | inr n ↦ (c ∷ part, parts, rw (n, e) refl)
    ]

split_slash-append : (a b : Text) → split_slash (a ++ (slash ++ b)) ≡ split_slash a ++ split_slash b
unfolding split_slash
split_slash-append [] b = refl
split_slash-append (c ∷ a) b =
    let (part, parts, e) = split_slash-cons a in
    elim (Bool-cases (c == b'/')) [
      | inl s ↦ rw (s, split_slash-append a b) refl
      | inr n ↦ rw (n, split_slash-append a b, e) refl
    ]

walk_path-append :
    (rooted : Bool) (path xs ys : List Text)
    → walk_path rooted path (xs ++ ys) ≡ walk_path rooted (walk_path rooted path xs) ys
unfolding walk_path
walk_path-append rooted path [] ys = refl
walk_path-append rooted path (x ∷ xs) ys = walk_path-append rooted (step_path rooted path x) xs ys

-- No element goes up.
abbrev pub StaysDown : List Text → Type 0
StaysDown = All (λ part. text_eq part dot_dot ≡ false)

step_down :
    (rooted : Bool) (path : List Text) (part : Text)
    → text_eq part dot_dot ≡ false
    → (more : List Text) × (step_path rooted path part ≡ more ++ path)
unfolding step_path
step_down rooted path part n = elim (Bool-cases (is_empty part || text_eq part dot)) [
  | inl s ↦ ([], rw s refl)
  | inr s ↦ (part ∷ [], rw (s, n) refl)
]

walk_down :
    (rooted : Bool) (path parts : List Text)
    → StaysDown parts
    → (more : List Text) × (walk_path rooted path parts ≡ more ++ path)
unfolding walk_path
walk_down rooted path [] s = ([], refl)
walk_down rooted path (part ∷ parts) (n, s) =
    let (first, e) = step_down rooted path part n in
    let (more, h) = walk_down rooted (step_path rooted path part) parts s in
    (more ++ first, h ∙ ap (λ x. more ++ x) e ∙ sym (append_assoc more first path))

-- The elements of a path, first one first.
unfoldable pub elements : Text → List Text
elements t = reverse (walk_path (has_prefix t slash) [] (split_slash t))

joined-append :
    (xs : List Text) (y : Text) (ys : List Text)
    → xs ≢ []
    → joined slash (xs ++ y ∷ ys) ≡ joined slash xs ++ (slash ++ joined slash (y ∷ ys))
unfolding joined
joined-append [] y ys n = absurd (n refl)
joined-append (x ∷ []) y ys n = refl
joined-append (x ∷ z ∷ xs) y ys n =
    rw (joined-append (z ∷ xs) y ys (λ e. ground arith))
      (sym (append_assoc x (slash ++ joined slash (z ∷ xs)) (slash ++ joined slash (y ∷ ys))))

-- A directory below the root, by its absolute path.
abbrev pub IsDirectory : Text → Type 0
IsDirectory d = (has_prefix d slash ≡ true) × (elements d ≢ [])

abbrev pub Within : Text → Text → Type 0
Within d t = (t ≡ clean_path d) ⊎ ((rest : Text) × (t ≡ clean_path d ++ (slash ++ rest)))

rooted-append : (d t : Text) → has_prefix d slash ≡ true → has_prefix (d ++ t) slash ≡ true
unfolding has_prefix strip_prefix
rooted-append [] t h = ground arith
rooted-append (c ∷ d) t h = elim (Bool-cases (b'/' == c)) [
  | inl e ↦ rw (has_prefix, strip_prefix, e) refl
  | inr n ↦ ground arith
]

clean_path-rooted :
    (t : Text) → has_prefix t slash ≡ true → clean_path t ≡ slash ++ joined slash (elements t)
unfolding clean_path elements
clean_path-rooted t h = rw h refl

elements-append :
    (d p : Text)
    → has_prefix d slash ≡ true
    → StaysDown (split_slash p)
    → (more : List Text) × (elements (d ++ (slash ++ p)) ≡ elements d ++ more)
unfolding elements
elements-append d p h s =
    let base = walk_path true [] (split_slash d) in
    let (more, e) = walk_down true base (split_slash p) s in
    let walked =
      ap (walk_path true []) (split_slash-append d p)
      ∙ walk_path-append true [] (split_slash d) (split_slash p)
      ∙ e in
    (
      reverse more,
      rw (h, rooted-append d (slash ++ p) h) (ap reverse walked ∙ reverse-append more base),
    )

clean_path-Within :
    (d t : Text) (more : List Text)
    → IsDirectory d
    → has_prefix t slash ≡ true
    → elements t ≡ elements d ++ more
    → Within d (clean_path t)
clean_path-Within d t [] (h, n) r e = inl (
    clean_path-rooted t r
    ∙ ap (λ x. slash ++ joined slash x) (e ∙ append-nil (elements d))
    ∙ sym (clean_path-rooted d h))
clean_path-Within d t (y ∷ ys) (h, n) r e = inr (
  joined slash (y ∷ ys),
  clean_path-rooted t r
      ∙ ap (λ x. slash ++ joined slash x) e
      ∙ ap (λ x. slash ++ x) (joined-append (elements d) y ys n)
      ∙ ap (λ x. x ++ (slash ++ joined slash (y ∷ ys))) (sym (clean_path-rooted d h)),
)

not_rooted : has_prefix [] slash ≢ true
unfolding has_prefix strip_prefix
not_rooted h = ground arith

pub join_path-Within :
    (d p : Text) → IsDirectory d → StaysDown (split_slash p) → p ≢ [] → Within d (join_path d p)
unfolding join_path
join_path-Within [] p dir s n = absurd (not_rooted dir.0)
join_path-Within (c ∷ d) [] dir s n = absurd (n refl)
join_path-Within (c ∷ d) (b ∷ p) dir s n =
    let (more, e) = elements-append (c ∷ d) (b ∷ p) dir.0 s in
    clean_path-Within (c ∷ d) ((c ∷ d) ++ (slash ++ (b ∷ p))) more dir
      (rooted-append (c ∷ d) (slash ++ (b ∷ p)) dir.0) e
