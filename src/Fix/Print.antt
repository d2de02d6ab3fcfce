-- ===== src/Fix/Print.antt =====
-- cmd/fix/main.go: edits printed as the prompt of rewriteFile asks for them, and the reading of one.
use hal_agent_operator.Base.{
  Text, List, [], ◌∷◌, ◌++◌, ◌+◌, ltb, some, ok, utf8, ◌≡◌, refl, sym, ap, ◌∙◌, arith, length, take,
  drop, cut_first, is_clear, strip_prefix, cut_first-past, IsPlain, plain_is_clear, take-append,
  trim_prefix-append, trim_suffix-append, append_assoc, true, false,
}
use hal_agent_operator.Fix.Edits.{FileEdit}
use hal_agent_operator.Base.{returns}
use hal_agent_operator.Fix.Markers.{
  begin_mark, old_mark, new_mark, end_mark, newline, trim_newlines, block_edit, parse_block,
}

-- The texts of an edit hold no mark.
abbrev pub IsPlainEdit : FileEdit → Type 0
IsPlainEdit e = IsPlain e.old × IsPlain e.new

abbrev pub open_old : Text
open_old = utf8 "\n*** Old ***\n"

abbrev pub open_new : Text
open_new = utf8 "\n*** New ***\n"

-- What stands between the begin and the end mark of an edit.
unfoldable pub block_of : FileEdit → Text
block_of e = open_old ++ (e.old ++ (open_new ++ (e.new ++ newline)))

-- The edits as blocks, each mark on a line of its own.
unfoldable pub print_edits : List FileEdit → Text
print_edits [] = []
print_edits (e ∷ edits) = begin_mark ++ (block_of e ++ (end_mark ++ (newline ++ print_edits edits)))

-- No mark starts in the line of the old mark, or in the newline after a plain text.
old_line_clear : (t : Text) → is_clear new_mark open_old t ≡ true
unfolding is_clear strip_prefix utf8
old_line_clear t = refl

new_line_found : (t : Text) → cut_first new_mark (open_new ++ t) ≡ some (newline, newline ++ t)
unfolding cut_first strip_prefix utf8
new_line_found t = refl

plain_clear_of_new : (p t : Text) → IsPlain p → is_clear new_mark p (open_new ++ t) ≡ true
unfolding utf8
plain_clear_of_new p t h = plain_is_clear _ p _ h

new_found :
    (old rest : Text)
    → IsPlain old
    → cut_first new_mark (open_old ++ (old ++ (open_new ++ rest)))
      ≡ some (open_old ++ (old ++ newline), newline ++ rest)
new_found old rest h =
    cut_first-past new_mark open_old _ _ _ (old_line_clear _)
      (cut_first-past new_mark old _ _ _ (plain_clear_of_new old rest h) (new_line_found rest))

old_found : (t : Text) → cut_first old_mark (open_old ++ t) ≡ some (newline, newline ++ t)
unfolding cut_first strip_prefix utf8
old_found t = refl

trim_newlines-both : (t : Text) → trim_newlines (newline ++ (t ++ newline)) ≡ t
unfolding trim_newlines
trim_newlines-both t = rw (trim_prefix-append newline (t ++ newline)) (trim_suffix-append t newline)

after_mark : (x : Text) → drop (length newline + length old_mark) (open_old ++ x) ≡ newline ++ x
unfolding utf8
after_mark x = refl

slice_old :
    (x rest : Text)
    → drop
        (length newline + length old_mark)
        (take (length (open_old ++ x)) (open_old ++ (x ++ rest)))
      ≡ newline ++ x
slice_old x rest =
    rw (sym (append_assoc open_old x rest), take-append (open_old ++ x) rest) (after_mark x)

-- The new mark stands behind the old one.
in_order :
    (x : Text)
    → (ltb (length (open_old ++ x)) (length newline) ≡ false)
      × (ltb (length (open_old ++ x)) (length newline + length old_mark) ≡ false)
unfolding utf8
in_order x = ground arith

old_part :
    (old rest : Text)
    → trim_newlines (
        drop
          (length newline + length old_mark)
          (take (length (open_old ++ (old ++ newline))) (open_old ++ (old ++ (open_new ++ rest)))))
      ≡ old
unfolding utf8
old_part old rest = rw (sym (append_assoc old newline (new_mark ++ (newline ++ rest)))) (
    ap trim_newlines (slice_old (old ++ newline) (new_mark ++ (newline ++ rest)))
    ∙ trim_newlines-both old)

pub block_edit-print : (e : FileEdit) → IsPlainEdit e → parse_block (block_of e) ≡ returns (ok e)
unfolding parse_block block_of block_edit
block_edit-print e (h, k) =
    let (c1, c2) = in_order (e.old ++ newline) in
    rw
      (
        old_found (e.old ++ (open_new ++ (e.new ++ newline))),
        new_found e.old (e.new ++ newline) h,
        c1,
        c2,
        old_part e.old (e.new ++ newline),
        trim_newlines-both e.new,
      )
      refl
