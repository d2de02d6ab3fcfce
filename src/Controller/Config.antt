-- ===== src/Controller/Config.antt =====
-- IssueResolutionReconciler: its settings, and the accessors that fall back on internal/defaults.
use hal_agent_operator.Base.{Text, List, [], ◌∷◌, is_empty, if◌then◌else◌}
use hal_agent_operator.Defaults

-- The client and the scheme are the argument `Cluster` of the handlers.
pub record Reconciler : Type 0 where
  pub triage_image : Text
  pub fix_image : Text
  pub gemini_secret_name : Text
  pub gemini_secret_key : Text
  pub gemini_model : Text
  pub github_triage_secret_name : Text
  pub github_fix_secret_name : Text
  pub github_secret_key : Text
  pub job_triage_service_account : Text
  pub job_fix_service_account : Text
  pub job_runtime_class_name : Text

unfoldable pub triage_image : Reconciler → Text
triage_image r = if is_empty r.triage_image then Defaults.triage_image else r.triage_image

unfoldable pub gemini_secret_name : Reconciler → Text
gemini_secret_name r =
    if is_empty r.gemini_secret_name then Defaults.gemini_secret_name else r.gemini_secret_name

unfoldable pub gemini_secret_key : Reconciler → Text
gemini_secret_key r =
    if is_empty r.gemini_secret_key then Defaults.gemini_secret_key else r.gemini_secret_key

unfoldable pub gemini_model : Reconciler → Text
gemini_model r = if is_empty r.gemini_model then Defaults.gemini_model else r.gemini_model

unfoldable pub fix_image : Reconciler → Text
fix_image r = if is_empty r.fix_image then Defaults.fix_image else r.fix_image

unfoldable pub github_triage_secret_name : Reconciler → Text
github_triage_secret_name r =
    if is_empty r.github_triage_secret_name
    then Defaults.github_triage_secret_name
    else r.github_triage_secret_name

unfoldable pub github_fix_secret_name : Reconciler → Text
github_fix_secret_name r =
    if is_empty r.github_fix_secret_name
    then Defaults.github_fix_secret_name
    else r.github_fix_secret_name

unfoldable pub github_secret_key : Reconciler → Text
github_secret_key r =
    if is_empty r.github_secret_key then Defaults.github_secret_key else r.github_secret_key

unfoldable pub job_triage_service_account : Reconciler → Text
job_triage_service_account r =
    if is_empty r.job_triage_service_account
    then Defaults.job_triage_service_account
    else r.job_triage_service_account

unfoldable pub job_fix_service_account : Reconciler → Text
job_fix_service_account r =
    if is_empty r.job_fix_service_account
    then Defaults.job_fix_service_account
    else r.job_fix_service_account

unfoldable pub first_non_empty : List Text → Text
first_non_empty [] = []
first_non_empty (v ∷ vals) = if is_empty v then first_non_empty vals else v
