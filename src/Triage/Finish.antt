-- ===== src/Triage/Finish.antt =====
-- cmd/triage: postTriageFeedback and splitRepo (github.go), finishTriage and writeTermination (main.go).
use hal_agent_operator.Base.{
  ℕ, ℤ, pos, negsuc, Text, List, [], ◌∷◌, ◌++◌, ◌+◌, ◌*◌, ◌-◌, ◌^◌, ◌&&◌, ◌||◌, ◌==◌, leb, ltb,
  ltb_ℤ, Option, none, some, Error, error_text, failure, Result, ok, err, utf8, is_empty,
  split_slash, if◌then◌else◌,
}
use hal_agent_operator.Gemini.{truncate_runes}
use hal_agent_operator.Triage.Report.{TriageResult}
use hal_agent_operator.Triage.Labels.{GitHub, IssueRef, CallError, sync_triage_labels}
use hal_agent_operator.Triage.Feedback.{format_triage_comment}

-- What the worker uses of its surroundings: GitHub, os.Getenv, the termination log, json.Marshal of
-- a triageResult, and strconv.Quote.
pub record Surroundings (World : Type 0) : Type 0 where
  pub github : GitHub World
  pub getenv : Text → Text
  pub write_log : World → Text → World × Option Error
  pub marshal : TriageResult → Text
  pub quoted : Text → Text

-- strconv.Atoi: nothing where it returns an error.
unfoldable pub scan_int : ℕ → Text → Option ℕ
scan_int n [] = some n
scan_int n (c ∷ t) =
    let rest = scan_int (n * 10 + (c - b'0')) t in if leb b'0' c && leb c b'9' then rest else none

unfoldable pub unsigned_int : Text → Option ℕ
unfolding scan_int
unsigned_int [] = none
unsigned_int (c ∷ t) = scan_int 0 (c ∷ t)

abbrev pub in_range : Option ℕ → Option ℤ
in_range none = none
in_range (some n) = if ltb n (2 ^ 63) then some (pos n) else none

abbrev pub in_range_below : Option ℕ → Option ℤ
in_range_below none = none
in_range_below (some n) =
    if n == 0 then some (pos 0) else if leb n (2 ^ 63) then some (negsuc (n - 1)) else none

unfoldable pub atoi : Text → Option ℤ
unfolding unsigned_int
atoi [] = none
atoi (c ∷ t) =
    if c == b'+'
    then in_range (unsigned_int t)
    else if c == b'-'
    then in_range_below (unsigned_int t)
    else in_range (unsigned_int (c ∷ t))

module _ {World : Type 0} (s : Surroundings World) where
  abbrev pub no_repo : Text → Error
  no_repo repo =
      failure (utf8 "invalid ISSUE_REPOSITORY " ++ (s.quoted repo ++ utf8 " (want owner/name)"))

  unfoldable pub two_parts : Text → List Text → Result (Text × Text)
  two_parts repo (owner ∷ name ∷ []) =
      if is_empty owner || is_empty name then err (no_repo repo) else ok (owner, name)
  two_parts repo _ = err (no_repo repo)

  unfoldable pub split_repo : Text → Result (Text × Text)
  split_repo repo = two_parts repo (split_slash repo)

  -- The issue that postTriageFeedback writes to.
  unfoldable pub issue_ref : Text → Text → Text → Result IssueRef
  issue_ref token repo issue_number =
      if is_empty token
      then err (failure (utf8 "GITHUB_TOKEN is not set"))
      else elim (split_repo repo) [
        | err e ↦ err e
        | ok place ↦ elim (atoi issue_number) [
          | none ↦ err (failure (utf8 "invalid ISSUE_NUMBER " ++ s.quoted issue_number))
          | some n ↦
              if ltb_ℤ (pos 0) n
              then ok (record { owner = place.0; repo = place.1; number = n })
              else err (failure (utf8 "invalid ISSUE_NUMBER " ++ s.quoted issue_number))
        ]
      ]

  -- The end of postTriageFeedback: the labels, then the URL of the comment.
  unfoldable pub after_sync : World × Option Error → Text → World × Result Text
  after_sync (w, some e) url = (w, err e)
  after_sync (w, none) url = (w, ok url)

  unfoldable pub after_comment :
      IssueRef → TriageResult → World × (Text × Option CallError) → World × Result Text
  after_comment i result (w, (url, some e)) =
      (w, err (failure (utf8 "create issue comment: " ++ e.text)))
  after_comment i result (w, (url, none)) =
      if is_empty url
      then (w, err (failure (utf8 "create issue comment: empty HTML URL")))
      else after_sync (sync_triage_labels s.github i w result) url

  unfoldable pub post_to : World → Result IssueRef → TriageResult → World × Result Text
  post_to w (err e) result = (w, err e)
  post_to w (ok i) result =
      after_comment i result (s.github.create_comment w i (format_triage_comment result))

  unfoldable pub post_triage_feedback :
      World → (token repo issue_number : Text) → TriageResult → World × Result Text
  post_triage_feedback w token repo issue_number result =
      post_to w (issue_ref token repo issue_number) result

  abbrev pub max_summary_runes : ℕ
  max_summary_runes = 1500

  -- What writeTermination keeps of a result.
  unfoldable pub compact : TriageResult → TriageResult
  compact result = record result {
    summary = truncate_runes result.summary max_summary_runes;
    raw = [];
  }

  unfoldable pub write_termination : World → TriageResult → World × Option Error
  write_termination w result = s.write_log w (s.marshal (compact result))

  unfoldable pub logged : World × Option Error → World × Option Error
  logged (w, some e) = (w, some (failure (utf8 "termination-log: " ++ error_text e)))
  logged (w, none) = (w, none)

  unfoldable pub after_feedback : TriageResult → World × Result Text → World × Option Error
  after_feedback result (w, err e) =
      ((write_termination w result).0, some (failure (utf8 "github feedback: " ++ error_text e)))
  after_feedback result (w, ok url) =
      logged (write_termination w (record result { comment_url = url }))

  unfoldable pub finish_triage :
      World → (repo issue_number : Text) → TriageResult → World × Option Error
  finish_triage w repo issue_number result =
      after_feedback result
        (post_triage_feedback w (s.getenv (utf8 "GITHUB_TOKEN")) repo issue_number result)
