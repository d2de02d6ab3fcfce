-- ===== src/Triage/Fake.antt =====
-- GitHub in memory, with the laws that the properties rely on: the labels of one issue.
use hal_agent_operator.Base.{
  Text, List, [], ◌∷◌, ◌++◌, false, not, ◌&&◌, ◌||◌, Option, none, some, utf8, text_eq, text_eq_iff,
  if◌then◌else◌, ◌≡◌, refl, subst, sym, arith, ap, ◌∙◌, Bool-cases, inl, inr,
}
use hal_agent_operator.Triage.Labels.{GitHub, CallError}
use hal_agent_operator.Triage.Sync.{contains, IsGitHub}

without : Text → List Text → List Text
without l [] = []
without l (x ∷ w) = let rest = without l w in if text_eq x l then rest else x ∷ rest

abbrev not_found : CallError
not_found = record { status_code = some 404; text = utf8 "404" }

unfoldable pub take_off : List Text → Text → List Text × Option CallError
unfolding without
take_off w l = if contains w l then (without l w, none) else (w, some not_found)

abbrev pub github : GitHub (List Text)
github = record {
  create_comment = λ w i body. (w, (utf8 "url", none));
  remove_label = λ w i l. take_off w l;
  create_label = λ w i name color. (w, none);
  add_labels = λ w i ls. (ls ++ w, none);
}

contains-without :
    (l x : Text) (w : List Text) → contains (without l w) x ≡ (not (text_eq l x) && contains w x)
unfolding without
contains-without l x [] = ground arith
contains-without l x (y ∷ w) =
    ground (arith, contains-without l x w, text_eq_iff y l, text_eq_iff l x, text_eq_iff y x)

pub contains-append :
    (ls w : List Text) (x : Text) → contains (ls ++ w) x ≡ (contains ls x || contains w x)
contains-append [] w x = refl
contains-append (l ∷ ls) w x = ground (arith, contains-append ls w x)

untouched :
    (w : List Text) (l x : Text)
    → contains w l ≡ false
    → contains w x ≡ (not (text_eq l x) && contains w x)
untouched w l x n = elim (Bool-cases (text_eq l x)) [
  | inl t ↦
      let gone = subst (λ (y : Text). contains w y ≡ false) ((text_eq_iff l x).0 t) n in
      ground arith
  | inr t ↦ ground arith
]

pub taken_off :
    (w w' : List Text) (l x : Text) (o : Option CallError)
    → take_off w l ≡ (w', o)
    → contains w' x ≡ (not (text_eq l x) && contains w x)
unfolding take_off
taken_off w w' l x o e = elim (Bool-cases (contains w l)) [
  | inl t ↦
      let same : without l w ≡ w' = ground arith in
      ap (λ v. contains v x) (sym same) ∙ contains-without l x w
  | inr t ↦
      let same : w ≡ w' = ground arith in ap (λ v. contains v x) (sym same) ∙ untouched w l x t
]

abbrev pub github_laws : IsGitHub github
github_laws = record {
  labelled = λ w i x. contains w x;
  removed = λ w w' i l x e. taken_off w w' l x none e;
  absent = λ w w' i l x f e s. taken_off w w' l x (some f) e;
  label_made = λ w i name color x. refl;
  labels_added = λ w w' i ls x e.
      ap (λ (p : List Text × Option CallError). contains p.0 x) (sym e) ∙ contains-append ls w x;
}
