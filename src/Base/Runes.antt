-- ===== src/Base/Runes.antt =====
-- Go's runes: `[]rune(s)` and `string(rs)`. A rune is kept as its UTF-8 bytes; a byte that starts no
-- valid encoding is the rune U+FFFD, as in utf8.DecodeRune.
use Prim.Native.Nat.{ℕ, zero, suc, ◌-◌, ◌<◌}
use mathlib.Core.Path.{◌≡◌, refl, ◌∙◌, ap}
use mathlib.Core.Bool.{Bool, false, ◌&&◌}
use mathlib.Core.List.{List, [], ◌∷◌, ◌++◌}
use native.Mathlib.Omega.{arith}
use hal_agent_operator.Base.Tests.{leb, ltb, ◌==◌, if◌then◌else◌}
use hal_agent_operator.Base.Lists.{All, length, take}
use hal_agent_operator.Base.GoText.{Text}

abbrev within : ℕ → ℕ → ℕ → Bool
within low high b = leb low b && leb b high

-- The bounds of the second byte after the lead `a` of three or four bytes.
abbrev second_ok : ℕ → ℕ → Bool
second_ok a b =
    if a == 0xE0
    then within 0xA0 0xBF b
    else if a == 0xED
    then within 0x80 0x9F b
    else if a == 0xF0
    then within 0x90 0xBF b
    else if a == 0xF4
    then within 0x80 0x8F b
    else within 0x80 0xBF b

-- The length of the encoding at the start of a text, 0 where it is not valid.
unfoldable pub width : Text → ℕ
width [] = 0
width (a ∷ []) = if ltb a 0x80 then 1 else 0
width (a ∷ b ∷ []) =
    if ltb a 0x80 then 1 else if within 0xC2 0xDF a && within 0x80 0xBF b then 2 else 0
width (a ∷ b ∷ c ∷ []) =
    if ltb a 0x80
    then 1
    else if within 0xC2 0xDF a && within 0x80 0xBF b
    then 2
    else if within 0xE0 0xEF a && second_ok a b && within 0x80 0xBF c
    then 3
    else 0
width (a ∷ b ∷ c ∷ d ∷ t) =
    if ltb a 0x80
    then 1
    else if within 0xC2 0xDF a && within 0x80 0xBF b
    then 2
    else if within 0xE0 0xEF a && second_ok a b && within 0x80 0xBF c
    then 3
    else if within 0xF0 0xF4 a && second_ok a b && within 0x80 0xBF c && within 0x80 0xBF d
    then 4
    else 0

-- U+FFFD
abbrev pub replacement : Text
replacement = 0xEF ∷ 0xBF ∷ 0xBD ∷ []

unfoldable first_rune : Text → Text
unfolding width
first_rune t = if width t == 0 then replacement else take (width t) t

-- The runes of a text whose first `skip` bytes belong to the rune before.
unfoldable runes_from : ℕ → Text → List Text
unfolding first_rune
runes_from skip [] = []
runes_from (suc skip) (c ∷ t) = runes_from skip t
runes_from zero (c ∷ t) = first_rune (c ∷ t) ∷ runes_from (width (c ∷ t) - 1) t

-- `[]rune(s)`
unfoldable pub runes : Text → List Text
unfolding runes_from
runes t = runes_from 0 t

-- `string(rs)`
abbrev pub concat : List Text → Text
concat [] = []
concat (r ∷ rs) = r ++ concat rs

-- The bytes encode one rune.
abbrev pub IsRune : Text → Type 0
IsRune r = (width r ≡ length r) × (0 < length r)

width-append : (r s : Text) → IsRune r → width (r ++ s) ≡ length r
unfolding width
width-append [] s h = ground arith
width-append (a ∷ []) [] h = ground arith
width-append (a ∷ []) (x ∷ []) h = ground arith
width-append (a ∷ []) (x ∷ y ∷ []) h = ground arith
width-append (a ∷ []) (x ∷ y ∷ z ∷ s) h = ground arith
width-append (a ∷ b ∷ []) [] h = ground arith
width-append (a ∷ b ∷ []) (x ∷ []) h = ground arith
width-append (a ∷ b ∷ []) (x ∷ y ∷ s) h = ground arith
width-append (a ∷ b ∷ c ∷ []) [] h = ground arith
width-append (a ∷ b ∷ c ∷ []) (x ∷ s) h = ground arith
width-append (a ∷ b ∷ c ∷ d ∷ []) s h = ground arith
width-append (a ∷ b ∷ c ∷ d ∷ e ∷ r) s h = ground arith

pub take-append : (r s : Text) → take (length r) (r ++ s) ≡ r
take-append [] s = refl
take-append (c ∷ r) s = rw (take-append r s)

runes_from-skip : (r s : Text) → runes_from (length r) (r ++ s) ≡ runes s
unfolding runes_from runes
runes_from-skip [] s = refl
runes_from-skip (c ∷ r) s = runes_from-skip r s

runes-append : (r s : Text) → IsRune r → runes (r ++ s) ≡ r ∷ runes s
unfolding runes runes_from first_rune
runes-append [] s h = ground arith
runes-append (c ∷ r) s h =
    let e = width-append (c ∷ r) s h in
    let nonempty : (length (c ∷ r) == 0) ≡ false = ground arith in
    let less : length (c ∷ r) - 1 ≡ length r = omega arith in
    rw (e, take-append r s, nonempty, less, runes_from-skip r s)

-- The runes of an encoding are those that were encoded.
pub runes-concat : (rs : List Text) → All IsRune rs → runes (concat rs) ≡ rs
unfolding runes runes_from
runes-concat [] h = refl
runes-concat (r ∷ rs) (h, hs) = runes-append r (concat rs) h ∙ ap (λ x. r ∷ x) (runes-concat rs hs)
