-- ===== src/Fix/RoundTrip.antt =====
-- cmd/fix/main.go: parseMarkerEdits reads the blocks that the prompt of rewriteFile asks for.
use hal_agent_operator.Base.{
  ℕ, zero, suc, Text, List, [], ◌∷◌, ◌++◌, ◌<◌, ◌≤◌, some, ok, utf8, ◌≡◌, refl, ap, ◌∙◌, arith,
  length, cut_first, length-append, is_clear, in_front, Option-cases, inl, inr, strip_prefix,
  cut_first-past, IsPlain, plain_is_clear, All, append_assoc, true,
}
use hal_agent_operator.Fix.Edits.{FileEdit, validate_edits}
use hal_agent_operator.Base.{returns}
use hal_agent_operator.Fix.Markers.{
  begin_mark, end_mark, newline, add_block, parse_blocks, validated, parse_marker_edits,
}
use hal_agent_operator.Fix.Blocks.{parse_blocks-round}
use hal_agent_operator.Fix.Print.{
  IsPlainEdit, open_old, open_new, block_of, print_edits, block_edit-print,
}

end_line_found : (t : Text) → cut_first end_mark (newline ++ (end_mark ++ t)) ≡ some (newline, t)
unfolding cut_first strip_prefix utf8
end_line_found t = refl

lines_clear :
    (t : Text) → (is_clear end_mark open_old t ≡ true) × (is_clear end_mark open_new t ≡ true)
unfolding is_clear strip_prefix utf8
lines_clear t = (refl, refl)

plain_clear_of_end :
    (p t : Text)
    → IsPlain p
    → (is_clear end_mark p (newline ++ t) ≡ true) × (is_clear end_mark p (open_new ++ t) ≡ true)
unfolding utf8
plain_clear_of_end p t h = (plain_is_clear _ p _ h, plain_is_clear _ p _ h)

block_found :
    (e : FileEdit) (t : Text)
    → IsPlainEdit e
    → cut_first end_mark (block_of e ++ (end_mark ++ t)) ≡ some (block_of e, t)
unfolding block_of
block_found e t (h, k) =
    let tail = end_mark ++ t in
    let f1 =
      cut_first-past end_mark e.new _ _ _ (plain_clear_of_end e.new tail k).0 (end_line_found t) in
    let f2 = cut_first-past end_mark open_new _ _ _ (lines_clear _).1 f1 in
    let f3 = cut_first-past end_mark e.old _ _ _ (plain_clear_of_end e.old _ h).1 f2 in
    let f4 = cut_first-past end_mark open_old _ _ _ (lines_clear _).0 f3 in
    ap (cut_first end_mark) (joined open_old e.old open_new e.new newline tail) ∙ f4
  where
    joined :
        (a b c d x y : Text)
        → (a ++ (b ++ (c ++ (d ++ x)))) ++ y ≡ a ++ (b ++ (c ++ (d ++ (x ++ y))))
    joined a b c d x y =
        append_assoc a _ y
        ∙ ap (λ z. a ++ z)
            (append_assoc b _ y
              ∙ ap (λ z. b ++ z) (append_assoc c _ y ∙ ap (λ z. c ++ z) (append_assoc d x y)))

newline_skipped :
    (t : Text) → cut_first begin_mark (newline ++ t) ≡ in_front b'\n' (cut_first begin_mark t)
unfolding cut_first strip_prefix utf8
newline_skipped t = refl

parse_blocks-newline :
    (fuel : ℕ) (t : Text) → parse_blocks fuel (newline ++ t) ≡ parse_blocks fuel t
unfolding parse_blocks
parse_blocks-newline zero t = refl
parse_blocks-newline (suc fuel) t = elim (Option-cases (cut_first begin_mark t)) [
  | inl e ↦ rw (parse_blocks, newline_skipped t, e) refl
  | inr (x, e) ↦ rw (parse_blocks, newline_skipped t, e) refl
]

nothing_left : (fuel : ℕ) → parse_blocks (suc fuel) [] ≡ some (returns (ok []))
unfolding parse_blocks cut_first utf8
nothing_left fuel = refl

parse_blocks-print :
    (fuel : ℕ) (edits : List FileEdit)
    → length edits < fuel
    → All IsPlainEdit edits
    → parse_blocks fuel (print_edits edits) ≡ some (returns (ok edits))
unfolding print_edits add_block
parse_blocks-print zero edits l h = absurd (omega arith)
parse_blocks-print (suc fuel) [] l h = nothing_left fuel
parse_blocks-print (suc fuel) (e ∷ edits) l (h, hs) =
    parse_blocks-round fuel _ (block_of e) (newline ++ print_edits edits)
      (block_found e (newline ++ print_edits edits) h)
    ∙ rw
        (
          block_edit-print e h,
          parse_blocks-newline fuel (print_edits edits),
          parse_blocks-print fuel edits (omega arith) hs,
        )
        refl

enough_fuel : (edits : List FileEdit) → length edits ≤ length (print_edits edits)
unfolding print_edits
enough_fuel [] = omega arith
enough_fuel (e ∷ edits) =
    let rest = newline ++ print_edits edits in
    omega (
      arith,
      enough_fuel edits,
      length-append begin_mark (block_of e ++ (end_mark ++ rest)),
      length-append (block_of e) (end_mark ++ rest),
      length-append end_mark rest,
    )

-- Blocks printed as the prompt asks for them, of texts without three stars in a row, are read as
-- the edits that they were printed from, and these are then validated.
pub parse_marker_edits-print_edits :
    (edits : List FileEdit)
    → All IsPlainEdit edits
    → parse_marker_edits (print_edits edits) ≡ some (returns (validate_edits edits))
unfolding parse_marker_edits validated
parse_marker_edits-print_edits edits h =
    rw
      (parse_blocks-print (suc (length (print_edits edits))) edits
        (omega (arith, enough_fuel edits)) h)
      refl
