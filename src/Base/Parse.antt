-- ===== src/Base/Parse.antt =====
-- strconv.ParseInt(s, 10, 32) where its error is dropped: 0 where the text is no number, the nearest
-- int32 where the number is out of range.
use Prim.Native.Nat.{ℕ, zero, suc, ◌+◌, ◌-◌, ◌*◌, ◌^◌, ◌≤◌, ◌<◌}
use mathlib.Core.Path.{◌≡◌, refl, ap, ◌∙◌}
use mathlib.Core.Logic.{◌≢◌}
use mathlib.Core.Bool.{Bool, ◌&&◌}
use mathlib.Core.List.{[], ◌∷◌}
use native.Mathlib.Omega.{arith}
use hal_agent_operator.Base.Tests.{ltb, leb, ◌==◌, if◌then◌else◌}
use hal_agent_operator.Base.Int.{ℤ, pos, negsuc}
use hal_agent_operator.Base.GoText.{
  Text, decimal_ℕ, value, value-decimal_ℕ, IsDigits, decimal_ℕ-IsDigits,
}

-- strconv.ParseUint(s, 10, 32): out of range is found at the digit that makes it so.
pub data Unsigned : Type 0 where
  syntax_error : Unsigned
  out_of_range : Unsigned
  number : ℕ → Unsigned

abbrev is_digit : ℕ → Bool
is_digit c = leb b'0' c && leb c b'9'

unfoldable scan_digits : ℕ → Text → Unsigned
scan_digits n [] = number n
scan_digits n (c ∷ t) =
    let n' = n * 10 + (c - b'0') in
    let rest = scan_digits n' t in
    if is_digit c then (if leb (2 ^ 32) n' then out_of_range else rest) else syntax_error

unfoldable parse_uint32 : Text → Unsigned
unfolding scan_digits
parse_uint32 [] = syntax_error
parse_uint32 (c ∷ t) = scan_digits 0 (c ∷ t)

positive : Unsigned → ℤ
positive syntax_error = pos 0
positive out_of_range = pos (2 ^ 31 - 1)
positive (number n) = if leb (2 ^ 31) n then pos (2 ^ 31 - 1) else pos n

negative : Unsigned → ℤ
negative syntax_error = pos 0
negative out_of_range = negsuc (2 ^ 31 - 1)
negative (number n) =
    if n == 0 then pos 0 else if ltb (2 ^ 31) n then negsuc (2 ^ 31 - 1) else negsuc (n - 1)

unfoldable pub parse_int32 : Text → ℤ
unfolding parse_uint32 positive negative
parse_int32 [] = pos 0
parse_int32 (c ∷ t) =
    if c == b'+'
    then positive (parse_uint32 t)
    else if c == b'-'
    then negative (parse_uint32 t)
    else positive (parse_uint32 (c ∷ t))

value-grows : (n : ℕ) (t : Text) → n ≤ value n t
value-grows n [] = omega arith
value-grows n (c ∷ t) = omega (arith, value-grows (n * 10 + (c - b'0')) t)

scan_digits-value :
    (n : ℕ) (t : Text) → IsDigits t → value n t < 2 ^ 32 → scan_digits n t ≡ number (value n t)
unfolding scan_digits
scan_digits-value n [] h l = refl
scan_digits-value n (c ∷ t) (low, high, h) l =
    ground
      (arith, value-grows (n * 10 + (c - b'0')) t, scan_digits-value (n * 10 + (c - b'0')) t h l)

parse-digits :
    (t : Text) → IsDigits t → t ≢ [] → value 0 t < 2 ^ 31 → parse_int32 t ≡ pos (value 0 t)
unfolding parse_int32 parse_uint32 positive
parse-digits [] h n l = absurd (n refl)
parse-digits (c ∷ t) (low, high, h) n l =
    ground (arith, scan_digits-value 0 (c ∷ t) (low, high, h) (omega arith))

pub decimal_ℕ-nonempty : (n : ℕ) → decimal_ℕ n ≢ []
unfolding decimal_ℕ
decimal_ℕ-nonempty zero e = ground arith
decimal_ℕ-nonempty (suc n) e =
    let v : value 0 (decimal_ℕ (suc n)) ≡ 0 = ap (value 0) e in
    omega (arith, v, value-decimal_ℕ (suc n))

-- What `%d` prints is read back, within the range of int32.
pub parse_int32-decimal_ℕ : (n : ℕ) → n < 2 ^ 31 → parse_int32 (decimal_ℕ n) ≡ pos n
parse_int32-decimal_ℕ n l =
    let v = value-decimal_ℕ n in
    parse-digits (decimal_ℕ n) (decimal_ℕ-IsDigits n) (decimal_ℕ-nonempty n) (omega (arith, v, l))
    ∙ ap pos v
