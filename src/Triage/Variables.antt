-- ===== src/Triage/Variables.antt =====
-- cmd/triage/scan.go: where reShellExfil sees a variable.
use hal_agent_operator.Base.{
  ℕ, zero, suc, Text, List, [], ◌∷◌, ◌≡◌, refl, arith, Bool, true, false, not, ◌&&◌, ◌+◌, ◌≢◌, All,
  Option, none, some, text_eq, text_eq_iff, utf8, runes, Bool-cases, inl, inr,
}
use hal_agent_operator.Triage.Scan.{is_upper}
use hal_agent_operator.Triage.Shell.{
  is_word, is_letter, dollar, starts, variable, leak, leak_within, after_command, after_word,
  command_leaks, leaks_anywhere, max_between, shell_exfil,
}

-- No `env` stands anywhere in the runes, and no `$` right behind a word character.
unfoldable pub is_quiet : Text → List Text → Bool
is_quiet before [] = true
is_quiet before (r ∷ rs) =
    let later = is_quiet r rs in
    not (starts (utf8 "ENV") (r ∷ rs)) && not (text_eq r dollar && is_word before) && later

leak-quiet : (before : Text) (rs : List Text) → is_quiet before rs ≡ true → leak before rs ≡ false
unfolding is_quiet leak starts after_word variable utf8
leak-quiet before [] q = ground arith
leak-quiet before (r ∷ rs) q = ground (arith, text_eq_iff r dollar)

quiet_tail :
    (before r : Text) (rs : List Text) → is_quiet before (r ∷ rs) ≡ true → is_quiet r rs ≡ true
unfolding is_quiet
quiet_tail before r rs q = ground arith

leak_within-quiet :
    (n : ℕ) (before : Text) (rs : List Text)
    → is_quiet before rs ≡ true
    → leak_within n before rs ≡ false
unfolding leak_within
leak_within-quiet zero before [] q = leak-quiet before [] q
leak_within-quiet (suc n) before [] q = leak-quiet before [] q
leak_within-quiet zero before (r ∷ rs) q = leak-quiet before (r ∷ rs) q
leak_within-quiet (suc n) before (r ∷ rs) q =
    rw (leak-quiet before (r ∷ rs) q, leak_within-quiet n r rs (quiet_tail before r rs q))
      (ground arith)

-- Behind a word character the runes are held to more.
quiet_behind :
    (r before : Text) (rs : List Text)
    → is_word r ≡ true
    → is_quiet r rs ≡ true
    → is_quiet before rs ≡ true
unfolding is_quiet
quiet_behind r before [] w q = refl
quiet_behind r before (x ∷ rs) w q = ground arith

-- A capital whose only other form is the small letter.
abbrev IsPlainLetter : ℕ → Type 0
IsPlainLetter u = (is_upper u ≡ true) × (u ≢ b'S') × (u ≢ b'K')

letter_word : (u : ℕ) (r : Text) → IsPlainLetter u → is_letter u r ≡ true → is_word r ≡ true
letter_word u r p h = ground (arith, text_eq_iff r (u ∷ []), text_eq_iff r ((u + 32) ∷ []))

-- The runes behind a word: the last of the word is a letter.
after_word-quiet :
    (word : Text) (rs rest : List Text) (last before : Text)
    → All IsPlainLetter word
    → is_quiet before rs ≡ true
    → (is_word before ≡ true)
    → after_word word rs ≡ some rest
    → is_quiet last rest ≡ true
unfolding after_word
after_word-quiet [] rs rest last before p q w h = quiet_behind before last rest w (ground arith)
after_word-quiet (u ∷ word) [] rest last before p q w h = ground arith
after_word-quiet (u ∷ word) (r ∷ rs) rest last before (p, ps) q w h =
    elim (Bool-cases (is_letter u r)) [
      | inl l ↦
          after_word-quiet word rs rest last r ps (quiet_tail before r rs q) (letter_word u r p l)
            (ground arith)
      | inr l ↦ ground arith
    ]

after_command-quiet :
    (u : ℕ) (word : Text) (last before : Text) (rs : List Text)
    → All IsPlainLetter (u ∷ word)
    → is_quiet before rs ≡ true
    → after_command last (after_word (u ∷ word) rs) ≡ false
unfolding after_word after_command
after_command-quiet u word last before [] p q = refl
after_command-quiet u word last before (r ∷ rs) (p, ps) q = elim (Bool-cases (is_letter u r)) [
  | inr l ↦ rw l refl
  | inl l ↦ rw l (go l (after_word word rs) refl)
]
  where
    go :
        is_letter u r ≡ true
        → (x : Option (List Text)) → after_word word rs ≡ x
        → after_command last x ≡ false
    go l none e = refl
    go l (some rest) e =
        let q' =
          after_word-quiet word rs rest last r ps (quiet_tail before r rs q) (letter_word u r p l)
            e in
        ground (arith, leak_within-quiet max_between last rest q')

command_leaks-quiet :
    (before : Text) (rs : List Text) → is_quiet before rs ≡ true → command_leaks rs ≡ false
unfolding command_leaks utf8
command_leaks-quiet before rs q =
    rw
      (
        after_command-quiet b'C' (b'U' ∷ b'R' ∷ b'L' ∷ []) (b'l' ∷ []) before rs (ground arith) q,
        after_command-quiet b'W' (b'G' ∷ b'E' ∷ b'T' ∷ []) (b't' ∷ []) before rs (ground arith) q,
      )
      refl

leaks_anywhere-quiet :
    (before : Text) (rs : List Text) → is_quiet before rs ≡ true → leaks_anywhere rs ≡ false
unfolding leaks_anywhere
leaks_anywhere-quiet before [] q = refl
leaks_anywhere-quiet before (r ∷ rs) q =
    rw (command_leaks-quiet before (r ∷ rs) q, leaks_anywhere-quiet r rs (quiet_tail before r rs q))
      refl

-- reShellExfil sees no variable that does not follow directly on a letter, a digit or `_`: a text
-- that has no `env` (in small or capital letters) anywhere, and in which each `$` stands at the start or behind another character
-- (a space, `=`, a quote or `/`), is not matched, whatever command and variables it names.
pub shell_exfil-quiet : (s : Text) → is_quiet [] (runes s) ≡ true → shell_exfil s ≡ false
unfolding shell_exfil
shell_exfil-quiet s q = leaks_anywhere-quiet [] (runes s) q
