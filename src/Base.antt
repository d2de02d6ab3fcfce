-- ===== src/Base.antt =====
-- The names that the other modules share: the libraries', passed on, and those of the children
-- (tests and cases, lists, signed integers, Go strings, results of calls that may fail).
mod Tests
mod Lists
mod Int
mod GoText
mod Results
mod Effects
mod Steps
mod Unchanged
mod Parse
mod Runes
mod Search
mod Paths
mod Occurrences
mod Clear
mod Trim
mod Answer
mod Walks
mod Dots
pub use Tests.*
pub use Lists.*
pub use Int.*
unfoldable pub use Int.{wrap32}
unfoldable pub use GoText.{utf8, decimal_ℕ, decimal}
pub use GoText.{Text, text_eq, text_eq_iff, text_eq_refl, is_empty, quote}
pub use GoText.{value, value-decimal_ℕ, decimal-injective, IsDigits, decimal_ℕ-IsDigits}
pub use Results.{
  Error, not_found, failure, error_text, Result, ok, err, Result-cases, Outcome, panics, returns,
}
unfoldable pub use Effects.{pure, fail, lift, attempt, perform, read, require, ◌>>=◌}
pub use Effects.{
  Act, ◌>>◌, wrapped, done, bind-ok, pure-ok, bind-post, bind-result, lift-ok, perform-ok,
  require-ok,
}
pub use Steps.*
unfoldable pub use Answer.{last_index, contains_text, braces, extract_json_object}
pub use Unchanged.*
unfoldable pub use Runes.{width, runes}
pub use Runes.{replacement, concat, IsRune, runes-concat, take-append}
unfoldable pub use Search.{
  strip_prefix, has_prefix, trim_prefix, trim_suffix, trim_space, cut_first, count, replace_once,
}
unfoldable pub use Paths.{split_slash, joined, step_path, walk_path, clean_path, join_path}
pub use Paths.{dot, dot_dot, slash}
unfoldable pub use Walks.{elements}
pub use Walks.{StaysDown, IsDirectory, Within, join_path-Within}
pub use Dots.{contains_text-StaysDown}
pub use Search.{cut_step, in_front}
pub use Occurrences.{
  Splits, NowhereIn, FirstIn, OnceApart, count-OnceApart, OnceApart-count, cut_first-FirstIn,
}
unfoldable pub use Clear.{is_clear}
pub use Clear.{cut_first-past, IsPlain, plain_is_clear}
unfoldable pub use Parse.{parse_int32}
pub use Parse.{parse_int32-decimal_ℕ, decimal_ℕ-nonempty}
pub use Trim.{trim_prefix-append, trim_suffix-append}
pub use Prim.Native.Nat.{ℕ, zero, suc, ◌+◌, ◌-◌, ◌*◌, ◌/◌, ◌%◌, ◌^◌, ◌≤◌, ◌<◌}
pub use mathlib.Core.Path.{◌≡◌, refl, sym, ap, ◌∙◌, subst}
pub use mathlib.Core.Logic.{◌≢◌, ◌↔◌, ◌⊎◌, inl, inr}
pub use mathlib.Core.Bool.{Bool, true, false, not, ◌&&◌, ◌||◌}
pub use mathlib.Core.Option.{Option, none, some}
pub use mathlib.Core.List.{List, [], ◌∷◌, ◌++◌, append_assoc, append-nil}
pub use native.Mathlib.Omega.{arith}
