-- ===== src/Base/Trim.antt =====
-- Laws of TrimPrefix and TrimSuffix.
use mathlib.Core.Path.{◌≡◌, refl}
use mathlib.Core.List.{◌++◌, reverse, reverse-append, reverse-reverse}
use hal_agent_operator.Base.GoText.{Text}
use hal_agent_operator.Base.Search.{trim_prefix, trim_suffix}
use hal_agent_operator.Base.Occurrences.{strip_prefix_iff}

pub trim_prefix-append : (p t : Text) → trim_prefix (p ++ t) p ≡ t
unfolding trim_prefix
trim_prefix-append p t = rw (trim_prefix, (strip_prefix_iff p (p ++ t) t).1 refl) refl

pub trim_suffix-append : (t p : Text) → trim_suffix (t ++ p) p ≡ t
unfolding trim_suffix
trim_suffix-append t p =
    rw (reverse-append t p, trim_prefix-append (reverse p) (reverse t)) (reverse-reverse t)
