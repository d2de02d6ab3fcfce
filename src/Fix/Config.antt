-- ===== src/Fix/Config.antt =====
-- cmd/fix/main.go: the worker's configuration from its environment (loadConfig, envOr,
-- defaultBranchName).
use hal_agent_operator.Base.{
  ℕ, ℤ, Text, ◌++◌, Option, none, some, Error, failure, utf8, is_empty, decimal, parse_int32,
  if◌then◌else◌,
}
use hal_agent_operator.Gemini.{truncate_runes}
use hal_agent_operator.Defaults

abbrev pub max_body_runes : ℕ
max_body_runes = 12000

pub record FixConfig : Type 0 where
  pub repository : Text
  pub issue_number : Text
  pub title : Text
  pub body : Text
  pub triage_summary : Text
  pub api_key : Text
  pub model : Text
  pub github_token : Text
  pub branch_name : Text
  pub base_branch : Text
  pub attempt : ℤ  -- int32
  pub work_dir : Text

unfoldable pub env_or : (Text → Text) → Text → Text → Text
env_or getenv key fallback = if is_empty (getenv key) then fallback else getenv key

unfoldable pub default_branch_name : Text → ℤ → Text
default_branch_name issue_number attempt =
    utf8 "bugfix/issue-" ++ (issue_number ++ (utf8 "-attempt-" ++ decimal attempt))

-- loadConfig in front of its checks.
unfoldable pub read_config : (Text → Text) → FixConfig
read_config getenv = record {
  repository = getenv (utf8 "ISSUE_REPOSITORY");
  issue_number = getenv (utf8 "ISSUE_NUMBER");
  title = getenv (utf8 "ISSUE_TITLE");
  body = truncate_runes (getenv (utf8 "ISSUE_BODY")) max_body_runes;
  triage_summary = getenv (utf8 "TRIAGE_SUMMARY");
  api_key = getenv (utf8 "GEMINI_API_KEY");
  model = env_or getenv (utf8 "GEMINI_MODEL") Defaults.gemini_model;
  github_token = getenv (utf8 "GITHUB_TOKEN");
  branch_name = getenv (utf8 "BRANCH_NAME");
  base_branch = getenv (utf8 "BASE_BRANCH");
  attempt = parse_int32 (env_or getenv (utf8 "FIX_ATTEMPT") (utf8 "1"));
  work_dir = env_or getenv (utf8 "WORKDIR") (utf8 "/workspace");
}

abbrev not_set : FixConfig → Text → FixConfig × Option Error
not_set cfg name = (cfg, some (failure (name ++ utf8 " is not set")))

-- The checks of loadConfig and its default for the branch.
unfoldable pub check_config : FixConfig → FixConfig × Option Error
unfolding default_branch_name
check_config cfg =
    if is_empty cfg.repository
    then not_set cfg (utf8 "ISSUE_REPOSITORY")
    else if is_empty cfg.issue_number
    then not_set cfg (utf8 "ISSUE_NUMBER")
    else if is_empty cfg.api_key
    then not_set cfg (utf8 "GEMINI_API_KEY")
    else if is_empty cfg.github_token
    then not_set cfg (utf8 "GITHUB_TOKEN")
    else if is_empty cfg.branch_name
    then (record cfg { branch_name = default_branch_name cfg.issue_number cfg.attempt }, none)
    else (cfg, none)

unfoldable pub load_config : (Text → Text) → FixConfig × Option Error
unfolding read_config check_config
load_config getenv = check_config (read_config getenv)
