-- ===== src/Fix/Inside.antt =====
-- cmd/fix/main.go: the file that the model names lies in the clone.
use hal_agent_operator.Base.{
  Text, List, [], ◌∷◌, ◌≡◌, ◌≢◌, arith, false, ◌||◌, Error, Result, ok, err, utf8, is_empty,
  Bool-cases, inl, inr, subst, sym, trim_prefix, trim_space, dot_dot, contains_text,
  contains_text-StaysDown, join_path, IsDirectory, Within, join_path-Within, Returned, after_bind,
  after_lift, extract_json_object, after_require, after_read, pure-ok, if◌then◌else◌,
}
use hal_agent_operator.Fix.Config.{FixConfig}
use hal_agent_operator.Fix.Answers.{Decoding, checked_path, located_path, parse_locate_path}
use hal_agent_operator.Fix.Tools.{Tools}
use hal_agent_operator.Fix.Steps.{locate_file}
use hal_agent_operator.Fix.Run.{repo_dir, locate}

-- A path that the worker accepts.
abbrev pub IsAccepted : Text → Type 0
IsAccepted path = (path ≢ []) × (contains_text path dot_dot ≡ false)

accepted :
    (p path : Text) (e : Error)
    → (if is_empty p || contains_text p dot_dot then err e else ok p) ≡ ok path
    → IsAccepted path
accepted [] path e h = ground arith
accepted (c ∷ p) path e h = elim (Bool-cases (contains_text (c ∷ p) dot_dot)) [
  | inl up ↦ ground arith
  | inr down ↦
      let same : c ∷ p ≡ path = ground arith in subst IsAccepted same ((λ n. ground arith), down)
]

module _ (d : Decoding) where
  checked_path-IsAccepted :
      (located path : Text) → checked_path d located ≡ ok path → IsAccepted path
  unfolding checked_path utf8
  checked_path-IsAccepted located path h =
      accepted (trim_prefix (trim_space located) (utf8 "./")) path _ h

  located_path-IsAccepted :
      (x : Result Text) (path : Text) → located_path d x ≡ ok path → IsAccepted path
  unfolding located_path
  located_path-IsAccepted (ok located) path h = checked_path-IsAccepted located path h
  located_path-IsAccepted (err e) path h = ground arith

module _ {World : Type 0} (t : Tools World) (cfg : FixConfig) where
  locate_file-IsAccepted :
      (w : World) {w' : World} (tree : List Text) (out : Text) {path : Text}
      → Returned (locate_file t cfg tree out w) w' path
      → IsAccepted path
  unfolding locate_file parse_locate_path
  locate_file-IsAccepted w tree out h = after_bind _ _ h λ w1 raw asked h1.
      after_lift _ _ h1 λ p parsed h2. after_require _ _ _ h2 λ known h3.
        subst IsAccepted (sym (pure-ok _ h3).1) (
          located_path-IsAccepted t.decoding (t.decoding.unmarshal_locate (extract_json_object raw))
            p (ground arith))

  -- Whatever the model answers, the file that is read and rewritten lies in the clone: where a path was
  -- located, its place in the file system begins with the directory of the clone, for a work directory
  -- that makes that an absolute path below the root.
  pub locate-Within :
      (w w' : World) (out path : Text)
      → Returned (locate t cfg out w) w' path
      → IsDirectory (repo_dir cfg)
      → Within (repo_dir cfg) (join_path (repo_dir cfg) path)
  unfolding locate
  locate-Within w w' out path h dir = after_lift _ _ (after_read _ _ h) λ tree listed h1.
      let (named, down) = locate_file-IsAccepted w tree out h1 in
      join_path-Within (repo_dir cfg) path dir (contains_text-StaysDown path down) named
