-- ===== src/Triage/Sync.antt =====
-- cmd/triage/github.go: the labels of an issue after syncTriageLabels.
use hal_agent_operator.Base.{
  Text, List, [], ◌∷◌, Bool, true, false, not, ◌&&◌, ◌||◌, Option, none, some, Error, utf8,
  Bool-cases, inl, inr, text_eq, ◌≡◌, refl, sym, ap, ◌∙◌, arith,
}
use hal_agent_operator.Triage.Report.{TriageResult}
use hal_agent_operator.Triage.Labels.{
  GitHub, IssueRef, CallError, is_github_status, triage_label_plan, after_remove, remove_labels,
  created, label_color, ensure_label, after_ensure, ensure_labels, added, sync_triage_labels,
  triage_executed, suspicious_true, suspicious_false, in_scope_true, in_scope_false,
  label_pending_validation, label_rejected,
}

abbrev pub contains : List Text → Text → Bool
contains [] x = false
contains (l ∷ ls) x = text_eq l x || contains ls x

-- The labels that the worker sets and removes.
abbrev pub all_labels : List Text
all_labels =
    triage_executed ∷ suspicious_true ∷ suspicious_false ∷ in_scope_true ∷ in_scope_false
    ∷ label_pending_validation ∷ label_rejected ∷ []

-- What the GitHub API documents of the labels that an issue has.
pub record IsGitHub {World : Type 0} (g : GitHub World) : Type 0 where
  -- The issue has the label.
  pub labelled : World → IssueRef → Text → Bool
  pub removed :
      (w w' : World) (i : IssueRef) (l x : Text)
      → g.remove_label w i l ≡ (w', none)
      → labelled w' i x ≡ (not (text_eq l x) && labelled w i x)
  -- 404: the issue has not the label.
  pub absent :
      (w w' : World) (i : IssueRef) (l x : Text) (e : CallError)
      → g.remove_label w i l ≡ (w', some e)
      → is_github_status e 404 ≡ true
      → labelled w' i x ≡ (not (text_eq l x) && labelled w i x)
  pub label_made :
      (w : World) (i : IssueRef) (name color x : Text)
      → labelled (g.create_label w i name color).0 i x ≡ labelled w i x
  pub labels_added :
      (w w' : World) (i : IssueRef) (ls : List Text) (x : Text)
      → g.add_labels w i ls ≡ (w', none)
      → labelled w' i x ≡ (contains ls x || labelled w i x)

-- Whether an issue has a label after its plan was carried out.
abbrev after : TriageResult → Text → Bool → Bool
after result x before =
    contains (triage_label_plan result).0 x
    || (not (contains (triage_label_plan result).1 x) && before)

plan_state :
    (result : TriageResult) (n s : Bool)
    → result.in_scope ≡ n
    → result.suspicious ≡ s
    → (before : Text → Bool)
    → let has : Text → Bool = λ x. after result x (before x) in
      (has triage_executed ≡ true)
      × (has suspicious_true ≡ s)
      × (has suspicious_false ≡ not s)
      × (has in_scope_true ≡ n)
      × (has in_scope_false ≡ not n)
      × (has label_pending_validation ≡ (n && not s))
      × (has label_rejected ≡ not (n && not s))
unfolding triage_label_plan utf8
plan_state result true true e f before = rw (e, f) (refl, refl, refl, refl, refl, refl, refl)
plan_state result true false e f before = rw (e, f) (refl, refl, refl, refl, refl, refl, refl)
plan_state result false true e f before = rw (e, f) (refl, refl, refl, refl, refl, refl, refl)
plan_state result false false e f before = rw (e, f) (refl, refl, refl, refl, refl, refl, refl)

plan_frame :
    (result : TriageResult) (x : Text) (before : Bool)
    → contains all_labels x ≡ false
    → after result x before ≡ before
unfolding triage_label_plan
plan_frame result x before n = ground arith

module _ {World : Type 0} (g : GitHub World) (laws : IsGitHub g) (i : IssueRef) where
  after_remove-labelled :
      (w : World) (l x : Text) (rest : World × Option Error) (w' : World)
      (answer : World × Option CallError)
      → g.remove_label w i l ≡ answer
      → after_remove g i l rest answer ≡ (w', none)
      → (rest ≡ (w', none))
        × (laws.labelled answer.0 i x ≡ (not (text_eq l x) && laws.labelled w i x))
  unfolding after_remove
  after_remove-labelled w l x rest w' (w1, none) a e = (e, laws.removed w w1 i l x a)
  after_remove-labelled w l x rest w' (w1, some f) a e =
      elim (Bool-cases (is_github_status f 404)) [
        | inl t ↦ (ground arith, laws.absent w w1 i l x f a t)
        | inr t ↦ ground arith
      ]

  remove_labels-labelled :
      (w w' : World) (ls : List Text) (x : Text)
      → remove_labels g i w ls ≡ (w', none)
      → laws.labelled w' i x ≡ (not (contains ls x) && laws.labelled w i x)
  unfolding remove_labels
  remove_labels-labelled w w' [] x e =
      ap (λ (p : World × Option Error). laws.labelled p.0 i x) (sym e)
  remove_labels-labelled w w' (l ∷ ls) x e =
      let answer = g.remove_label w i l in
      let (rest, one) =
        after_remove-labelled w l x (remove_labels g i answer.0 ls) w' answer refl e in
      let later = remove_labels-labelled answer.0 w' ls x rest in ground arith

  created-world :
      (name : Text) (answer : World × Option CallError) → (created g i name answer).0 ≡ answer.0
  unfolding created
  created-world name (w, none) = refl
  created-world name (w, some e) = ground arith

  ensure_label-labelled :
      (w : World) (name x : Text)
      → laws.labelled (ensure_label g i w name).0 i x ≡ laws.labelled w i x
  unfolding ensure_label
  ensure_label-labelled w name x =
      ap (λ (v : World). laws.labelled v i x)
        (created-world name (g.create_label w i name (label_color name)))
      ∙ laws.label_made w i name (label_color name) x

  after_ensure-none :
      (a rest : World × Option Error) (w' : World)
      → after_ensure g i a rest ≡ (w', none)
      → (a ≡ (a.0, none)) × (rest ≡ (w', none))
  unfolding after_ensure
  after_ensure-none (w, some e) rest w' h = ground arith
  after_ensure-none (w, none) rest w' h = (refl, h)

  ensure_labels-labelled :
      (w w' : World) (ls : List Text) (x : Text)
      → ensure_labels g i w ls ≡ (w', none)
      → laws.labelled w' i x ≡ laws.labelled w i x
  unfolding ensure_labels
  ensure_labels-labelled w w' [] x e =
      ap (λ (p : World × Option Error). laws.labelled p.0 i x) (sym e)
  ensure_labels-labelled w w' (l ∷ ls) x e =
      let made = ensure_label g i w l in
      let (_, rest) = after_ensure-none made (ensure_labels g i made.0 ls) w' e in
      ensure_labels-labelled made.0 w' ls x rest ∙ ensure_label-labelled w l x

  added-none :
      (a : World × Option CallError) (w' : World) → added g i a ≡ (w', none) → a ≡ (w', none)
  unfolding added
  added-none (w, none) w' h = ground arith
  added-none (w, some e) w' h = ground arith

  -- After syncTriageLabels returned without an error the issue has the labels of the plan to add,
  -- and of those that it had before all but the ones to remove.
  sync-plan :
      (w w' : World) (result : TriageResult) (x : Text)
      → sync_triage_labels g i w result ≡ (w', none)
      → let plan = triage_label_plan result in
        laws.labelled w' i x
        ≡ (contains plan.0 x || (not (contains plan.1 x) && laws.labelled w i x))
  unfolding sync_triage_labels
  sync-plan w w' result x e =
      let plan = triage_label_plan result in
      let removed = remove_labels g i w plan.1 in
      let made = ensure_labels g i removed.0 plan.0 in
      let last = added g i (g.add_labels made.0 i plan.0) in
      let (r, rest) = after_ensure-none removed (after_ensure g i made last) w' e in
      let (m, rest') = after_ensure-none made last w' rest in
      let l1 = remove_labels-labelled w removed.0 plan.1 x r in
      let l2 = ensure_labels-labelled removed.0 made.0 plan.0 x m in
      let l3 = laws.labels_added made.0 w' i plan.0 x (added-none _ w' rest') in
      rw (l3, l2, l1) refl

  -- Labels of a triaged issue: the state of the triage, whatever labels it had before, and any
  -- label that is none of the seven as it was.
  pub sync_triage_labels_lem :
      (w w' : World) (result : TriageResult)
      → sync_triage_labels g i w result ≡ (w', none)
      → let has : Text → Bool = laws.labelled w' i in
        let passed = result.in_scope && not result.suspicious in
        (has triage_executed ≡ true)
        × (has suspicious_true ≡ result.suspicious)
        × (has suspicious_false ≡ not result.suspicious)
        × (has in_scope_true ≡ result.in_scope)
        × (has in_scope_false ≡ not result.in_scope)
        × (has label_pending_validation ≡ passed)
        × (has label_rejected ≡ not passed)
        × ((x : Text) → contains all_labels x ≡ false → has x ≡ laws.labelled w i x)
  unfolding triage_label_plan
  sync_triage_labels_lem w w' result e =
      let (a, b, c, d, f, p, r) =
        plan_state result result.in_scope result.suspicious refl refl (laws.labelled w i) in
      let at = λ (x : Text). sync-plan w w' result x e in
      (
        at triage_executed ∙ a,
        at suspicious_true ∙ b,
        at suspicious_false ∙ c,
        at in_scope_true ∙ d,
        at in_scope_false ∙ f,
        at label_pending_validation ∙ p,
        at label_rejected ∙ r,
        λ x n. at x ∙ plan_frame result x (laws.labelled w i x) n,
      )
