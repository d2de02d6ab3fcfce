-- ===== src/Gemini/Truncation.antt =====
-- internal/gemini/gemini.go: what TruncateRunes keeps of a text.
use hal_agent_operator.Base.{
  ℕ, zero, suc, Text, [], ◌∷◌, ◌++◌, List, leb, length, take, All, runes, concat, IsRune,
  runes-concat, utf8, width, append_assoc, append-nil, length-append, length-take, ◌≡◌, ◌≤◌, ◌<◌,
  ◌+◌, refl, sym, ap, ◌∙◌, arith, false, true, ◌⊎◌, inl, inr,
}
use hal_agent_operator.Gemini.{truncate_runes}

concat-append : (xs ys : List Text) → concat (xs ++ ys) ≡ concat xs ++ concat ys
concat-append [] ys = refl
concat-append (x ∷ xs) ys =
    ap (λ z. x ++ z) (concat-append xs ys) ∙ sym (append_assoc x (concat xs) (concat ys))

All-append : (xs ys : List Text) → All IsRune xs → All IsRune ys → All IsRune (xs ++ ys)
All-append [] ys h k = k
All-append (x ∷ xs) ys (h, hs) k = (h, All-append xs ys hs k)

All-take : (n : ℕ) (xs : List Text) → All IsRune xs → All IsRune (take n xs)
All-take zero xs h = tt
All-take (suc n) [] h = tt
All-take (suc n) (x ∷ xs) (h, hs) = (h, All-take n xs hs)

ellipsis-IsRune : IsRune (utf8 "…")
unfolding utf8 width
ellipsis-IsRune = (refl, omega arith)

-- The runes of a valid text of more than `max` runes, cut: the first `max` of them and the ellipsis.
runes-truncate_runes :
    (rs : List Text) (max : ℕ)
    → All IsRune rs
    → max < length rs
    → runes (truncate_runes (concat rs) max) ≡ take max rs ++ utf8 "…" ∷ []
unfolding truncate_runes
runes-truncate_runes rs max h l =
    let cut : List Text = take max rs ++ utf8 "…" ∷ [] in
    let e : concat (take max rs) ++ utf8 "…" ≡ concat cut =
      ap (λ z. concat (take max rs) ++ z) (sym (append-nil (utf8 "…")))
      ∙ sym (concat-append (take max rs) (utf8 "…" ∷ [])) in
    let long : leb (length rs) max ≡ false = ground arith in
    rw (runes-concat rs h, long, e)
      (runes-concat cut (All-append _ _ (All-take max rs h) (ellipsis-IsRune, tt)))

cut_length :
    (rs : List Text) (max : ℕ) → max < length rs → length (take max rs ++ utf8 "…" ∷ []) ≡ max + 1
cut_length rs max l =
    length-append (take max rs) (utf8 "…" ∷ []) ∙ omega (arith, length-take max rs)

decide_lt : (m n : ℕ) → (m < n) ⊎ (n ≤ m)
decide_lt m n = ground arith

-- A text of valid UTF-8 of at most `max` runes is kept; a longer one becomes its first `max` runes,
-- never cut inside of one, and one ellipsis, so that the result has max + 1 runes.
pub truncate_runes_lem :
    (rs : List Text) (max : ℕ)
    → All IsRune rs
    → ((length rs ≤ max) × (truncate_runes (concat rs) max ≡ concat rs))
      ⊎ ((max < length rs)
          × (runes (truncate_runes (concat rs) max) ≡ take max rs ++ utf8 "…" ∷ [])
          × (length (runes (truncate_runes (concat rs) max)) ≡ max + 1))
unfolding truncate_runes
truncate_runes_lem rs max h = elim (decide_lt max (length rs)) [
  | inl l ↦ let e = runes-truncate_runes rs max h l in inr (l, e, ap length e ∙ cut_length rs max l)
  | inr l ↦ inl (l, kept l)
]
  where
    kept : length rs ≤ max → truncate_runes (concat rs) max ≡ concat rs
    kept l = let short : leb (length rs) max ≡ true = ground arith in rw (runes-concat rs h, short)
