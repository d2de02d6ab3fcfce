-- ===== src/Base/Paths.antt =====
-- strings.Split and strings.Join on "/", and filepath.Join with filepath.Clean on Unix.
use Prim.Native.Nat.{ℕ}
use mathlib.Core.Bool.{Bool, true, false, ◌||◌}
use mathlib.Core.List.{List, [], ◌∷◌, ◌++◌, reverse}
use hal_agent_operator.Base.Tests.{◌==◌, if◌then◌else◌}
use hal_agent_operator.Base.GoText.{Text, text_eq, is_empty}
use hal_agent_operator.Base.Search.{has_prefix}

abbrev pub in_first : ℕ → List Text → List Text
in_first c [] = (c ∷ []) ∷ []
in_first c (part ∷ parts) = (c ∷ part) ∷ parts

-- strings.Split(t, "/")
unfoldable pub split_slash : Text → List Text
split_slash [] = [] ∷ []
split_slash (c ∷ t) = let rest = split_slash t in if c == b'/' then [] ∷ rest else in_first c rest

-- strings.Join(parts, sep)
unfoldable pub joined : Text → List Text → Text
joined sep [] = []
joined sep (part ∷ []) = part
joined sep (part ∷ next ∷ parts) = part ++ (sep ++ joined sep (next ∷ parts))

abbrev pub dot : Text
dot = b'.' ∷ []

abbrev pub dot_dot : Text
dot_dot = b'.' ∷ b'.' ∷ []

abbrev pub slash : Text
slash = b'/' ∷ []

-- The elements of a path, last one first, after `..`.
abbrev up : Bool → List Text → List Text
up true [] = []
up false [] = dot_dot ∷ []
up rooted (top ∷ path) = if text_eq top dot_dot then dot_dot ∷ top ∷ path else path

unfoldable pub step_path : Bool → List Text → Text → List Text
step_path rooted path part =
    if is_empty part || text_eq part dot
    then path
    else if text_eq part dot_dot
    then up rooted path
    else part ∷ path

unfoldable pub walk_path : Bool → List Text → List Text → List Text
unfolding step_path
walk_path rooted path [] = path
walk_path rooted path (part ∷ parts) = walk_path rooted (step_path rooted path part) parts

abbrev pub or_dot : Text → Text
or_dot [] = dot
or_dot (c ∷ t) = c ∷ t

-- filepath.Clean
unfoldable pub clean_path : Text → Text
clean_path t =
    let rooted = has_prefix t slash in
    let body = joined slash (reverse (walk_path rooted [] (split_slash t))) in
    or_dot (if rooted then slash ++ body else body)

-- filepath.Join(a, b)
unfoldable pub join_path : Text → Text → Text
join_path a b =
    if is_empty a
    then (if is_empty b then [] else clean_path b)
    else clean_path (if is_empty b then a else a ++ (slash ++ b))
