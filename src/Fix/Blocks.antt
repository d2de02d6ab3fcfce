-- ===== src/Fix/Blocks.antt =====
-- cmd/fix/main.go: parseMarkerEdits ends, panics on marks that overlap, and reads what is printed.
use hal_agent_operator.Base.{
  ℕ, zero, suc, Text, List, [], ◌∷◌, ◌++◌, ◌+◌, ◌<◌, ◌≤◌, Option, some, ok, err, failure, utf8,
  quote, ◌≡◌, inl, inr, refl, ap, arith, length, cut_first, length-append, cut_first-FirstIn,
  Option-cases, strip_prefix, is_clear, cut_first-past, true,
}
use hal_agent_operator.Fix.Edits.{FileEdit, validate_edits}
use hal_agent_operator.Base.{Outcome, panics, returns}
use hal_agent_operator.Fix.Markers.{
  begin_mark, end_mark, block_edit, parse_block, add_block, parse_blocks, validated,
  parse_marker_edits,
}

-- The two marks with the stars between them shared.
abbrev pub shared_stars : Text
shared_stars = utf8 "*** Old *** New ***\n"

begin_found : (t : Text) → cut_first begin_mark (begin_mark ++ t) ≡ some ([], t)
unfolding cut_first strip_prefix utf8
begin_found t = refl

-- A round of the loop.
pub parse_blocks-round :
    (fuel : ℕ) (t block rest : Text)
    → cut_first end_mark t ≡ some (block, rest)
    → parse_blocks (suc fuel) (begin_mark ++ t)
      ≡ add_block (parse_block block) (parse_blocks fuel rest)
unfolding parse_blocks
parse_blocks-round fuel t block rest e = rw (parse_blocks, begin_found t, e) refl

clear_of_end : (t : Text) → is_clear end_mark shared_stars t ≡ true
unfolding is_clear strip_prefix utf8
clear_of_end t = refl

shared_stars_block : (t : Text) → parse_block (shared_stars ++ t) ≡ panics
unfolding parse_block block_edit cut_first strip_prefix utf8
shared_stars_block t = refl

-- A search that succeeds leaves a text that is shorter by the length of what it found.
shorter :
    (sub t before after : Text)
    → cut_first sub t ≡ some (before, after)
    → length after + length sub ≤ length t
shorter sub t before after e =
    let (s, _) = cut_first-FirstIn sub t before after e in
    omega (arith, ap length s, length-append before (sub ++ after), length-append sub after)

abbrev Ended : Option (Outcome (List FileEdit)) → Type 0
Ended x = (o : Outcome (List FileEdit)) × (x ≡ some o)

add_block-Ended :
    (b : Outcome FileEdit) (x : Option (Outcome (List FileEdit))) → Ended x → Ended (add_block b x)
unfolding add_block
add_block-Ended panics x h = (panics, refl)
add_block-Ended (returns (err e)) x h = (returns (err e), refl)
add_block-Ended (returns (ok e)) x (panics, h) = (panics, rw h refl)
add_block-Ended (returns (ok e)) x (returns (err y), h) = (returns (err y), rw h refl)
add_block-Ended (returns (ok e)) x (returns (ok es), h) = (returns (ok (e ∷ es)), rw h refl)

begin_long : 0 < length begin_mark
unfolding utf8
begin_long = omega arith

parse_blocks-Ended : (fuel : ℕ) (rest : Text) → length rest < fuel → Ended (parse_blocks fuel rest)
unfolding parse_blocks
parse_blocks-Ended zero rest l = absurd (omega arith)
parse_blocks-Ended (suc fuel) rest l = elim (Option-cases (cut_first begin_mark rest)) [
  | inl e ↦ (returns (ok []), rw (parse_blocks, e) refl)
  | inr (x, e) ↦ elim (Option-cases (cut_first end_mark x.1)) [
    | inl e' ↦ (
      returns (err (failure (utf8 "edit block missing " ++ quote end_mark))),
      rw (parse_blocks, e, e') refl,
    )
    | inr (y, e') ↦
        let l1 = shorter begin_mark rest x.0 x.1 e in
        let l2 = shorter end_mark x.1 y.0 y.1 e' in
        let h =
          add_block-Ended (parse_block y.0) _
            (parse_blocks-Ended fuel y.1 (omega (arith, l1, l2, l, begin_long))) in
        (h.0, rw (parse_blocks, e, e') (h.1))
  ]
]

-- parseMarkerEdits ends on every text: it returns edits or an error, or panics.
pub parse_marker_edits_ends :
    (raw : Text) → (o : Outcome (List FileEdit)) × (parse_marker_edits raw ≡ some o)
unfolding parse_marker_edits validated
parse_marker_edits_ends raw =
    let (o, e) = parse_blocks-Ended (suc (length raw)) raw (omega arith) in go o e
  where
    go :
        (o : Outcome (List FileEdit))
        → parse_blocks (suc (length raw)) raw ≡ some o
        → Ended (parse_marker_edits raw)
    go panics e = (panics, rw e refl)
    go (returns (err x)) e = (returns (err x), rw e refl)
    go (returns (ok es)) e = (returns (validate_edits es), rw e refl)

-- A block whose new mark starts with the last stars of its old mark makes parseMarkerEdits panic:
-- the check that the new mark is not in front of the old one lets it pass, and the slice between
-- the two has its bounds out of order.
pub shared_stars_panic :
    (text body rest : Text)
    → cut_first end_mark text ≡ some (body, rest)
    → parse_marker_edits (begin_mark ++ (shared_stars ++ text)) ≡ some panics
unfolding parse_marker_edits validated add_block
shared_stars_panic text body rest e =
    let found = cut_first-past end_mark shared_stars text body rest (clear_of_end text) e in
    rw
      (
        parse_blocks-round _ (shared_stars ++ text) (shared_stars ++ body) rest found,
        shared_stars_block body,
      )
      refl
