-- ===== src/Base/GoText.antt =====
-- Go strings: sequences of bytes, with the UTF-8 bytes of a literal, comparison, and `%d`, `%q`.
use Prim.Native.Nat.{ℕ, zero, suc, ◌+◌, ◌-◌, ◌*◌, ◌/◌, ◌%◌, ◌≤◌}
use Prim.Native.Char.{code}
use Prim.Native.String.{String}
use mathlib.Core.Path.{◌≡◌, refl, ap, sym, ◌∙◌}
use mathlib.Core.Logic.{◌↔◌, ◌≢◌}
use mathlib.Core.Bool.{Bool, true, false, ◌&&◌}
use mathlib.Core.List.{List, [], ◌∷◌, ◌++◌}
use native.Mathlib.Omega.{arith}
use hal_agent_operator.Base.Tests.{ltb, ◌==◌, if◌then◌else◌}
use hal_agent_operator.Base.Int.{ℤ, pos, negsuc}

abbrev pub Text : Type 0
Text = List ℕ

-- The UTF-8 bytes of a code point.
encode_rune : ℕ → Text
encode_rune c =
    if ltb c 0x80
    then c ∷ []
    else if ltb c 0x800
    then (0xC0 + c / 64) ∷ (0x80 + c % 64) ∷ []
    else if ltb c 0x10000
    then (0xE0 + c / 4096) ∷ (0x80 + c / 64 % 64) ∷ (0x80 + c % 64) ∷ []
    else (0xF0 + c / 262144) ∷ (0x80 + c / 4096 % 64) ∷ (0x80 + c / 64 % 64) ∷ (0x80 + c % 64) ∷ []

-- The bytes of a string literal.
unfoldable pub utf8 : String → Text
unfolding encode_rune
utf8 String.[] = []
utf8 (String.◌∷◌ c s) = encode_rune (code c) ++ utf8 s

abbrev pub is_empty : Text → Bool
is_empty [] = true
is_empty (c ∷ t) = false

abbrev pub text_eq : Text → Text → Bool
text_eq [] [] = true
text_eq (a ∷ s) (b ∷ t) = (a == b) && text_eq s t
text_eq _ _ = false

pub text_eq_iff : (s t : Text) → (text_eq s t ≡ true) ↔ (s ≡ t)
text_eq_iff [] [] = ground arith
text_eq_iff (a ∷ s) (b ∷ t) = ground (arith, text_eq_iff s t)
text_eq_iff [] (b ∷ t) = ground arith
text_eq_iff (a ∷ s) [] = ground arith

pub text_eq_refl : (s : Text) → text_eq s s ≡ true
text_eq_refl s = (text_eq_iff s s).1 refl

-- `%q` of a text with nothing to escape.
abbrev pub quote : Text → Text
quote t = b'"' ∷ t ++ b'"' ∷ []

-- The digits of a number in front of `out`, with fuel.
digits : ℕ → ℕ → Text → Text
digits zero n out = out
digits (suc f) n out =
    let more = digits f (n / 10) ((b'0' + n % 10) ∷ out) in if n == 0 then out else more

-- `%d` of a number that is not negative.
unfoldable pub decimal_ℕ : ℕ → Text
unfolding digits
decimal_ℕ n = if n == 0 then b'0' ∷ [] else digits n n []

-- `%d`
unfoldable pub decimal : ℤ → Text
unfolding decimal_ℕ
decimal (pos n) = decimal_ℕ n
decimal (negsuc n) = b'-' ∷ decimal_ℕ (n + 1)

-- The number that digits spell.
abbrev pub value : ℕ → Text → ℕ
value n [] = n
value n (c ∷ t) = value (n * 10 + (c - b'0')) t

value-digits : (f n : ℕ) (out : Text) → n ≤ f → value 0 (digits f n out) ≡ value n out
unfolding digits
value-digits zero n out h = let e : n ≡ 0 = omega arith in rw e
value-digits (suc f) n out h = ground (arith, value-digits f (n / 10) ((b'0' + n % 10) ∷ out))

pub value-decimal_ℕ : (n : ℕ) → value 0 (decimal_ℕ n) ≡ n
unfolding decimal_ℕ
value-decimal_ℕ n = ground (arith, value-digits n n [])

-- Two numbers that print alike are equal.
decimal_ℕ-injective : (m n : ℕ) → decimal_ℕ m ≡ decimal_ℕ n → m ≡ n
decimal_ℕ-injective m n h = sym (value-decimal_ℕ m) ∙ ap (value 0) h ∙ value-decimal_ℕ n

-- A text of decimal digits alone.
abbrev pub IsDigits : Text → Type 0
IsDigits [] = Unit
IsDigits (c ∷ t) = (b'0' ≤ c) × (c ≤ b'9') × IsDigits t

digits-IsDigits : (f n : ℕ) (out : Text) → IsDigits out → IsDigits (digits f n out)
unfolding digits
digits-IsDigits zero n out h = h
digits-IsDigits (suc f) n out h = ground (arith, digits-IsDigits f (n / 10) ((b'0' + n % 10) ∷ out))

pub decimal_ℕ-IsDigits : (n : ℕ) → IsDigits (decimal_ℕ n)
unfolding decimal_ℕ
decimal_ℕ-IsDigits n = ground (arith, digits-IsDigits n n [])

not-minus : (t s : Text) → IsDigits t → t ≢ b'-' ∷ s
not-minus [] s h e = cc
not-minus (c ∷ t) s h e = ground arith

pub decimal-injective : (a b : ℤ) → decimal a ≡ decimal b → a ≡ b
unfolding decimal
decimal-injective (pos m) (pos n) h = ap pos (decimal_ℕ-injective m n h)
decimal-injective (pos m) (negsuc n) h = absurd (not-minus _ _ (decimal_ℕ-IsDigits m) h)
decimal-injective (negsuc m) (pos n) h = absurd (not-minus _ _ (decimal_ℕ-IsDigits n) (sym h))
decimal-injective (negsuc m) (negsuc n) h =
    let tails : decimal_ℕ (m + 1) ≡ decimal_ℕ (n + 1) = ground arith in
    let e : m + 1 ≡ n + 1 = decimal_ℕ-injective (m + 1) (n + 1) tails in
    let e' : m ≡ n = omega arith in ap negsuc e'
