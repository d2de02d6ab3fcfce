-- ===== src/Fix/Steps.antt =====
-- cmd/fix/main.go: the steps of run (cloneRepo, checkoutNewBranch, locateFile, rewriteFile,
-- commitAndPush, openPR).
use hal_agent_operator.Base.{
  ℤ, Text, List, [], ◌∷◌, ◌++◌, Bool, ◌||◌, Option, none, some, Error, Result, ok, err, failure,
  utf8, is_empty, decimal, text_eq, trim_space, joined, split_slash, wrap32, if◌then◌else◌, Act,
  wrapped, Outcome, panics, returns, lift, attempt, perform, read, require, pure, ◌>>=◌, ◌>>◌,
}
use hal_agent_operator.Gemini.{truncate_runes}
use hal_agent_operator.Gemini.Call.{call}
use hal_agent_operator.Fix.Config.{FixConfig}
use hal_agent_operator.Fix.Edits.{FileEdit, apply_edits}
use hal_agent_operator.Fix.Answers.{parse_edits, parse_locate_path}
use hal_agent_operator.Fix.Tools.{Tools, CloneOptions, NewPullRequest}

abbrev pub repo_url : FixConfig → Text
repo_url cfg = utf8 "https://github.com/" ++ (cfg.repository ++ utf8 ".git")

unfoldable pub clone_options : FixConfig → CloneOptions
clone_options cfg = record {
  url = repo_url cfg;
  token = cfg.github_token;
  branch = if is_empty cfg.base_branch then none else some cfg.base_branch;
}

-- slices.Contains
unfoldable pub contains_path : List Text → Text → Bool
contains_path [] path = Bool.false
contains_path (p ∷ tree) path = text_eq p path || contains_path tree path

-- What both prompts tell of the issue and of the failing tests.
abbrev pub issue_part : FixConfig → Text → Text
issue_part cfg test_out =
    utf8 "Repository: "
    ++ (cfg.repository
        ++ (utf8 "\nIssue #"
            ++ (cfg.issue_number
                ++ (utf8 "\nTitle: "
                    ++ (cfg.title
                        ++ (utf8 "\nTriage summary: "
                            ++ (cfg.triage_summary
                                ++ (utf8 "\n\nBody:\n"
                                    ++ (cfg.body
                                        ++ (utf8 "\n\nFailing test output:\n"
                                            ++ truncate_runes test_out 8000))))))))))

unfoldable pub locate_system : Text
locate_system = trim_space (
    utf8
      "\nYou locate which single Go source file should be edited to fix a failing test.\nRespond with ONLY a JSON object: {\"path\":\"relative/path/to/file.go\"}\nPick exactly one path from the provided file tree. Prefer production code over _test.go\nunless the issue is clearly about the test itself.\n")

unfoldable pub locate_user : FixConfig → List Text → Text → Text
locate_user cfg tree test_out =
    issue_part cfg test_out
    ++ (utf8 "\n\nGo file tree:\n" ++ (joined (utf8 "\n") tree ++ utf8 "\n"))

unfoldable pub rewrite_system : Text
rewrite_system = trim_space (
    utf8
      "\nYou fix a single Go source file with minimal surgical edits.\nRespond with ONLY one or more edits in this exact plain-text format (no JSON, no markdown):\n\n*** Begin Edit ***\n*** Old ***\n<exact unique substring copied from the file>\n*** New ***\n<replacement>\n*** End Edit ***\n\nRules:\n- Each Old block must appear EXACTLY ONCE in the current file.\n- Prefer the smallest unique Old text (often one line).\n- Do NOT rewrite the whole file. Do NOT invent unrelated refactors.\n")

unfoldable pub rewrite_user : FixConfig → Text → Text → Text → Text
rewrite_user cfg path content test_out =
    issue_part cfg test_out
    ++ (utf8 "\n\nFile path: "
        ++ (path ++ (utf8 "\n\nCurrent file contents:\n" ++ (content ++ utf8 "\n"))))

-- The loop of parseMarkerEdits never runs out of fuel, so `none` does not occur.
unfoldable pub settled : Option (Outcome (List FileEdit)) → Outcome (List FileEdit)
settled none = panics
settled (some o) = o

unfoldable pub commit_message : FixConfig → Text
commit_message cfg =
    utf8 "fix: address issue #"
    ++ (cfg.issue_number ++ (utf8 " (attempt " ++ (decimal cfg.attempt ++ utf8 ")")))

unfoldable pub pull_request : FixConfig → Text → NewPullRequest
pull_request cfg base = record {
  title = if is_empty cfg.title then utf8 "fix: issue #" ++ cfg.issue_number else cfg.title;
  head = cfg.branch_name;
  base = base;
  body =
      utf8 "Fixes #"
      ++ (cfg.issue_number
          ++ (utf8 "\n\nAutomated fix by hal-agent (attempt "
              ++ (decimal cfg.attempt
                  ++ (utf8 ").\n\nTriage: " ++ (cfg.triage_summary ++ utf8 "\n")))));
}

-- `fmt.Errorf("what: %w", err)` of a value with its error.
abbrev pub wrapping : {A : Type 0} → Text → Result A → Outcome A
wrapping what (ok a) = returns (ok a)
wrapping what (err e) = returns (err (wrapped what e))

module _ {World : Type 0} (t : Tools World) where
  unfoldable pub head_branch : Text → Act World Text
  head_branch dir = do head ← read (λ w. t.head w dir); lift (wrapping (utf8 "resolve HEAD") head)

  -- The base branch of the pull request.
  unfoldable pub clone_repo : FixConfig → Text → Act World Text
  clone_repo cfg dir = do
    perform (wrapped (utf8 "clone " ++ repo_url cfg)) (λ w. t.clone w dir (clone_options cfg))
    if is_empty cfg.base_branch then head_branch dir else pure cfg.base_branch

  unfoldable pub checkout_new_branch : Text → Text → Act World (Unit {0})
  checkout_new_branch dir branch = do
    perform (wrapped (utf8 "worktree")) (λ w. (w, t.worktree w dir))
    perform (wrapped (utf8 "checkout branch " ++ branch)) (λ w. t.checkout_create w dir branch)

  unfoldable pub unknown_path : Text → Error
  unknown_path path = failure (utf8 "model returned unknown path " ++ t.decoding.quoted path)

  unfoldable pub locate_file : FixConfig → List Text → Text → Act World Text
  locate_file cfg tree test_out = do
    raw ←
        call t.genai cfg.api_key cfg.model locate_system (locate_user cfg tree test_out)
          (record { response_mime_type = utf8 "application/json"; max_output_tokens = 256 })
    path ← lift (returns (parse_locate_path t.decoding raw))
    require (contains_path tree path) (unknown_path path)
    pure path

  unfoldable pub rewrite_file : FixConfig → Text → Text → Text → Act World Text
  rewrite_file cfg path content test_out = do
    raw ←
        call t.genai cfg.api_key cfg.model rewrite_system (rewrite_user cfg path content test_out)
          (record { response_mime_type = utf8 "text/plain"; max_output_tokens = 2048 })
    edits ← lift (settled (parse_edits t.decoding raw))
    lift (returns (apply_edits content edits))

  unfoldable pub commit_and_push : FixConfig → Text → Text → Act World (Unit {0})
  commit_and_push cfg dir path = do
    perform (wrapped (utf8 "worktree")) (λ w. (w, t.worktree w dir))
    perform (wrapped (utf8 "git add " ++ path)) (λ w. t.add w dir path)
    perform (wrapped (utf8 "commit")) (λ w. t.commit w dir (commit_message cfg))
    perform (wrapped (utf8 "push")) (λ w. t.push w dir cfg.github_token)

  unfoldable pub no_repo : Text → Error
  no_repo repo =
      failure
        (utf8 "invalid ISSUE_REPOSITORY " ++ (t.decoding.quoted repo ++ utf8 " (want owner/name)"))

  unfoldable pub two_parts : Text → List Text → Result (Text × Text)
  two_parts repo (owner ∷ name ∷ []) =
      if is_empty owner || is_empty name then err (no_repo repo) else ok (owner, name)
  two_parts repo _ = err (no_repo repo)

  unfoldable pub split_repo : Text → Result (Text × Text)
  split_repo repo = two_parts repo (split_slash repo)

  unfoldable pub open_pr : FixConfig → Text → Act World (Text × ℤ)
  open_pr cfg base = do
    place ← lift (returns (split_repo cfg.repository))
    answer ← attempt (λ w. t.create_pr w cfg.github_token place.0 place.1 (pull_request cfg base))
    pr ← lift (wrapping (utf8 "create PR") answer)
    pure (pr.0, wrap32 pr.1)
