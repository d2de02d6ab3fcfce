-- ===== src/Base/Search.antt =====
-- Go's package strings on bytes: HasPrefix, TrimPrefix, TrimSuffix, TrimSpace, Index,
-- Count and Replace.
use Prim.Native.Nat.{ℕ, zero, suc, ◌+◌, ◌-◌}
use mathlib.Core.Bool.{Bool, true, false, ◌||◌, ◌&&◌}
use mathlib.Core.Option.{Option, none, some}
use mathlib.Core.List.{[], ◌∷◌, ◌++◌, reverse}
use hal_agent_operator.Base.Tests.{◌==◌, if◌then◌else◌, leb}
use hal_agent_operator.Base.Lists.{length}
use hal_agent_operator.Base.GoText.{Text, is_empty}
use hal_agent_operator.Base.Runes.{runes}

-- What follows a prefix.
unfoldable pub strip_prefix : Text → Text → Option Text
strip_prefix [] t = some t
strip_prefix (a ∷ p) [] = none
strip_prefix (a ∷ p) (b ∷ t) = let rest = strip_prefix p t in if a == b then rest else none

unfoldable pub has_prefix : Text → Text → Bool
unfolding strip_prefix
has_prefix t p = elim (strip_prefix p t) [ some rest ↦ true | none ↦ false ]

unfoldable pub trim_prefix : Text → Text → Text
unfolding strip_prefix
trim_prefix t p = elim (strip_prefix p t) [ some rest ↦ rest | none ↦ t ]

unfoldable pub trim_suffix : Text → Text → Text
unfolding trim_prefix
trim_suffix t p = reverse (trim_prefix (reverse t) (reverse p))

-- The cases of a search at one more byte in front.
abbrev pub in_front : ℕ → Option (Text × Text) → Option (Text × Text)
in_front c none = none
in_front c (some (before, after)) = some (c ∷ before, after)

abbrev pub cut_step : ℕ → Option Text → Option (Text × Text) → Option (Text × Text)
cut_step c (some after) rest = some ([], after)
cut_step c none rest = in_front c rest

-- The text before and after the first occurrence: strings.Index is the length of the text before.
unfoldable pub cut_first : Text → Text → Option (Text × Text)
cut_first sub [] = if is_empty sub then some ([], []) else none
cut_first sub (c ∷ t) = let rest = cut_first sub t in cut_step c (strip_prefix sub (c ∷ t)) rest

-- What one occurrence adds to the count, and the bytes that it takes after its first.
abbrev pub hits : Option Text → ℕ
hits none = 0
hits (some after) = 1

abbrev pub taken : Text → Option Text → ℕ
taken sub none = 0
taken sub (some after) = length sub - 1

-- The occurrences that do not overlap; the first `skip` bytes belong to the occurrence before.
unfoldable pub count_from : Text → ℕ → Text → ℕ
unfolding strip_prefix
count_from sub skip [] = 0
count_from sub (suc skip) (c ∷ t) = count_from sub skip t
count_from sub zero (c ∷ t) =
    let here = strip_prefix sub (c ∷ t) in hits here + count_from sub (taken sub here) t

-- strings.Count
unfoldable pub count : Text → Text → ℕ
unfolding count_from
count t sub = if is_empty sub then length (runes t) + 1 else count_from sub 0 t

abbrev pub replaced : Text → Text → Option (Text × Text) → Text
replaced t new none = t
replaced t new (some (before, after)) = before ++ (new ++ after)

-- strings.Replace(t, old, new, 1)
unfoldable pub replace_once : Text → Text → Text → Text
replace_once t old new = replaced t new (cut_first old t)

-- unicode.IsSpace of the encodings of one, two and three bytes.
abbrev space1 : ℕ → Bool
space1 a = (a == 0x20) || (leb 0x09 a && leb a 0x0D)

abbrev space2 : ℕ → ℕ → Bool
space2 a b = (a == 0xC2) && ((b == 0x85) || (b == 0xA0))

abbrev space3 : ℕ → ℕ → ℕ → Bool
space3 a b c =
    ((a == 0xE1) && (b == 0x9A) && (c == 0x80))
    || ((a == 0xE2)
        && (((b == 0x80) && (leb 0x80 c && leb c 0x8A || (c == 0xA8) || (c == 0xA9) || (c == 0xAF)))
            || ((b == 0x81) && (c == 0x9F))))
    || ((a == 0xE3) && (b == 0x80) && (c == 0x80))

-- The length of the space at the start of a text, whose bytes are in reverse order if `back`.
abbrev space_width : Bool → Text → ℕ
space_width back [] = 0
space_width back (a ∷ []) = if space1 a then 1 else 0
space_width back (a ∷ b ∷ []) =
    if space1 a then 1 else if (if back then space2 b a else space2 a b) then 2 else 0
space_width back (a ∷ b ∷ c ∷ t) =
    if space1 a
    then 1
    else if (if back then space2 b a else space2 a b)
    then 2
    else if (if back then space3 c b a else space3 a b c)
    then 3
    else 0

-- The text without the spaces at its start, after `skip` bytes.
unfoldable drop_spaces : Bool → ℕ → Text → Text
drop_spaces back skip [] = []
drop_spaces back (suc skip) (c ∷ t) = drop_spaces back skip t
drop_spaces back zero (c ∷ t) =
    let n = space_width back (c ∷ t) in
    let rest = drop_spaces back (n - 1) t in if n == 0 then c ∷ t else rest

-- strings.TrimSpace
unfoldable pub trim_space : Text → Text
unfolding drop_spaces
trim_space t = reverse (drop_spaces true 0 (reverse (drop_spaces false 0 t)))
