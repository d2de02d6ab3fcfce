-- ===== src/Triage/Shell.antt =====
-- cmd/triage/scan.go: reShellExfil as a matcher on runes,
--   (?i)(curl|wget)\b[^;\n]{0,160}\b(env|\$\{?\w*(TOKEN|SECRET|KEY|PASSWORD|KUBECONFIG)\w*\}?)
use hal_agent_operator.Base.{
  ℕ, zero, suc, Text, List, [], ◌∷◌, Bool, true, false, not, ◌&&◌, ◌||◌, ◌+◌, ◌==◌, Option, none,
  some, text_eq, utf8, runes, if◌then◌else◌,
}
use hal_agent_operator.Triage.Scan.{is_upper, is_lower, is_decimal}

-- The runes outside of ASCII that fold to a letter of it: U+017F to S, and U+212A to K.
abbrev pub long_s : Text
long_s = 0xC5 ∷ 0xBF ∷ []

abbrev pub kelvin : Text
kelvin = 0xE2 ∷ 0x84 ∷ 0xAA ∷ []

-- What `\b` takes for a word character: one of ASCII.
abbrev pub is_word : Text → Bool
is_word (b ∷ []) = is_upper b || is_lower b || is_decimal b || b == b'_'
is_word r = false

-- `\w` under (?i)
abbrev pub is_folded_word : Text → Bool
is_folded_word r = is_word r || text_eq r long_s || text_eq r kelvin

-- A rune against a letter that is given as a capital.
abbrev pub is_letter : ℕ → Text → Bool
is_letter u r =
    text_eq r (u ∷ [])
    || text_eq r ((u + 32) ∷ [])
    || ((u == b'S') && text_eq r long_s)
    || ((u == b'K') && text_eq r kelvin)

-- The runes after a word in capitals.
unfoldable pub after_word : Text → List Text → Option (List Text)
after_word [] rs = some rs
after_word (u ∷ word) [] = none
after_word (u ∷ word) (r ∷ rs) =
    let rest = after_word word rs in if is_letter u r then rest else none

unfoldable pub starts : Text → List Text → Bool
starts word rs = elim (after_word word rs) [ none ↦ false | some rest ↦ true ]

unfoldable pub starts_secret : List Text → Bool
unfolding starts
starts_secret rs =
    starts (utf8 "TOKEN") rs
    || starts (utf8 "SECRET") rs
    || starts (utf8 "KEY") rs
    || starts (utf8 "PASSWORD") rs
    || starts (utf8 "KUBECONFIG") rs

-- `\w*(TOKEN|…)`; what follows it in the expression matches nothing at all too.
unfoldable pub secret_name : List Text → Bool
secret_name [] = starts_secret []
secret_name (r ∷ rs) =
    let later = secret_name rs in starts_secret (r ∷ rs) || (is_folded_word r && later)

abbrev pub dollar : Text
dollar = b'$' ∷ []

abbrev pub brace : Text
brace = b'{' ∷ []

-- `\{?` and on: a name does not start with the brace, so it is taken where it stands.
unfoldable pub braced_name : List Text → Bool
braced_name [] = false
braced_name (r ∷ rs) = if text_eq r brace then secret_name rs else secret_name (r ∷ rs)

unfoldable pub variable : List Text → Bool
variable [] = false
variable (r ∷ rs) = text_eq r dollar && braced_name rs

-- A word starts or ends between the rune before and the runes ahead.
abbrev pub next_word : List Text → Bool
next_word [] = false
next_word (r ∷ rs) = is_word r

abbrev pub differ : Bool → Bool → Bool
differ true b = not b
differ false b = b

abbrev pub boundary : Text → List Text → Bool
boundary before rs = differ (is_word before) (next_word rs)

-- `\b(env|\$…)` behind the rune `before`.
unfoldable pub leak : Text → List Text → Bool
leak before rs = boundary before rs && (starts (utf8 "ENV") rs || variable rs)

abbrev pub ends_command : Text → Bool
ends_command r = text_eq r (b';' ∷ []) || text_eq r (b'\n' ∷ [])

-- `[^;\n]{0,n}` and on.
unfoldable pub leak_within : ℕ → Text → List Text → Bool
leak_within n before [] = leak before []
leak_within zero before (r ∷ rs) = leak before (r ∷ rs)
leak_within (suc n) before (r ∷ rs) =
    let later = leak_within n r rs in leak before (r ∷ rs) || (not (ends_command r) && later)

abbrev pub max_between : ℕ
max_between = 160

-- Behind `curl` or `wget`, whose last letter is `last`.
unfoldable pub after_command : Text → Option (List Text) → Bool
after_command last none = false
after_command last (some rs) = boundary last rs && leak_within max_between last rs

unfoldable pub command_leaks : List Text → Bool
command_leaks rs =
    after_command (b'l' ∷ []) (after_word (utf8 "CURL") rs)
    || after_command (b't' ∷ []) (after_word (utf8 "WGET") rs)

unfoldable pub leaks_anywhere : List Text → Bool
leaks_anywhere [] = false
leaks_anywhere (r ∷ rs) = let later = leaks_anywhere rs in command_leaks (r ∷ rs) || later

-- reShellExfil.MatchString
unfoldable pub shell_exfil : Text → Bool
shell_exfil s = leaks_anywhere (runes s)
