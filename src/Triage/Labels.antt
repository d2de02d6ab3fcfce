-- ===== src/Triage/Labels.antt =====
-- cmd/triage/github.go: the labels of a triaged issue and the calls that set them.
use hal_agent_operator.Base.{
  ℕ, ℤ, Text, List, [], ◌∷◌, ◌++◌, Bool, false, not, ◌&&◌, ◌||◌, ◌==◌, Option, none, some, Error,
  failure, utf8, quote, text_eq, if◌then◌else◌,
}
use hal_agent_operator.Triage.Report.{TriageResult}

abbrev pub triage_executed : Text
triage_executed = utf8 "triage:executed"

abbrev pub suspicious_true : Text
suspicious_true = utf8 "suspicious:true"

abbrev pub suspicious_false : Text
suspicious_false = utf8 "suspicious:false"

abbrev pub in_scope_true : Text
in_scope_true = utf8 "in-scope:true"

abbrev pub in_scope_false : Text
in_scope_false = utf8 "in-scope:false"

abbrev pub label_pending_validation : Text
label_pending_validation = utf8 "agent:pending-validation"

abbrev pub label_rejected : Text
label_rejected = utf8 "agent:rejected"

-- The labels to add and those to remove.
unfoldable pub triage_label_plan : TriageResult → List Text × List Text
triage_label_plan result =
    let passed = result.in_scope && not result.suspicious in
    (
      triage_executed
          ∷ (if result.suspicious then suspicious_true else suspicious_false)
          ∷ (if result.in_scope then in_scope_true else in_scope_false)
          ∷ (if passed then label_pending_validation else label_rejected)
          ∷ [],
      (if result.suspicious then suspicious_false else suspicious_true)
          ∷ (if result.in_scope then in_scope_false else in_scope_true)
          ∷ (if passed then label_rejected else label_pending_validation)
          ∷ [],
    )

-- An error of go-github: the status of the response where it is an ErrorResponse that has one.
pub record CallError : Type 0 where
  pub status_code : Option ℕ
  pub text : Text

-- An issue: owner, repository, number.
pub record IssueRef : Type 0 where
  pub owner : Text
  pub repo : Text
  pub number : ℤ

-- The calls of go-github that the worker makes.
pub record GitHub (World : Type 0) : Type 0 where
  pub create_comment : World → IssueRef → Text → World × (Text × Option CallError)
  pub remove_label : World → IssueRef → Text → World × Option CallError
  pub create_label : World → IssueRef → (name color : Text) → World × Option CallError
  pub add_labels : World → IssueRef → List Text → World × Option CallError

unfoldable pub is_github_status : CallError → ℕ → Bool
is_github_status e code = elim e.status_code [ none ↦ false | some n ↦ n == code ]

unfoldable pub label_color : Text → Text
label_color name =
    if text_eq name suspicious_true || text_eq name label_rejected
    then utf8 "d73a4a"
    else if text_eq name suspicious_false
        || text_eq name in_scope_true
        || text_eq name label_pending_validation
    then utf8 "0e8a16"
    else if text_eq name in_scope_false
    then utf8 "fbca04"
    else utf8 "0366d6"

-- `"what %q: %w"` of a label and an error.
abbrev pub label_error : Text → Text → CallError → Error
label_error what name e = failure (what ++ (utf8 " " ++ (quote name ++ (utf8 ": " ++ e.text))))

module _ {World : Type 0} (g : GitHub World) (i : IssueRef) where
  -- What a removal that was answered by `e` goes on to: an error that is not 404 ends the loop.
  unfoldable pub after_remove :
      Text → World × Option Error → World × Option CallError → World × Option Error
  unfolding is_github_status
  after_remove name rest (w, none) = rest
  after_remove name rest (w, some e) =
      if is_github_status e 404 then rest else (w, some (label_error (utf8 "remove label") name e))

  -- The loop over the labels to remove.
  unfoldable pub remove_labels : World → List Text → World × Option Error
  unfolding after_remove
  remove_labels w [] = (w, none)
  remove_labels w (name ∷ names) =
      let answer = g.remove_label w i name in
      after_remove name (remove_labels answer.0 names) answer

  unfoldable pub created : Text → World × Option CallError → World × Option Error
  unfolding is_github_status
  created name (w, none) = (w, none)
  created name (w, some e) =
      if is_github_status e 422
      then (w, none)
      else (w, some (label_error (utf8 "ensure label") name e))

  unfoldable pub ensure_label : World → Text → World × Option Error
  unfolding created label_color
  ensure_label w name = created name (g.create_label w i name (label_color name))

  unfoldable pub after_ensure : World × Option Error → World × Option Error → World × Option Error
  after_ensure (w, some e) rest = (w, some e)
  after_ensure (w, none) rest = rest

  -- The loop over the labels to add.
  unfoldable pub ensure_labels : World → List Text → World × Option Error
  unfolding ensure_label after_ensure
  ensure_labels w [] = (w, none)
  ensure_labels w (name ∷ names) =
      let made = ensure_label w name in after_ensure made (ensure_labels made.0 names)

  unfoldable pub added : World × Option CallError → World × Option Error
  added (w, none) = (w, none)
  added (w, some e) = (w, some (failure (utf8 "add labels: " ++ e.text)))

  unfoldable pub sync_triage_labels : World → TriageResult → World × Option Error
  unfolding triage_label_plan remove_labels ensure_labels added after_ensure
  sync_triage_labels w result =
      let plan = triage_label_plan result in
      let removed = remove_labels w plan.1 in
      let made = ensure_labels removed.0 plan.0 in
      after_ensure removed (after_ensure made (added (g.add_labels made.0 i plan.0)))
