-- ===== src/Defaults.antt =====
-- internal/defaults/defaults.go: the shared constants.
use hal_agent_operator.Base.{Text, utf8}

abbrev pub gemini_model : Text
gemini_model = utf8 "gemini-3.1-flash-lite"

abbrev pub gemini_secret_name : Text
gemini_secret_name = utf8 "gemini-api"

abbrev pub gemini_secret_key : Text
gemini_secret_key = utf8 "GEMINI_API_KEY"

abbrev pub triage_image : Text
triage_image = utf8 "hal-k8s-operator:poc"

abbrev pub fix_image : Text
fix_image = utf8 "hal-k8s-operator-fix:poc"

abbrev pub github_triage_secret_name : Text
github_triage_secret_name = utf8 "github-triage"

abbrev pub github_fix_secret_name : Text
github_fix_secret_name = utf8 "github-fix"

abbrev pub github_secret_key : Text
github_secret_key = utf8 "GITHUB_TOKEN"

abbrev pub job_triage_service_account : Text
job_triage_service_account = utf8 "hal-job-triage"

abbrev pub job_fix_service_account : Text
job_fix_service_account = utf8 "hal-job-fix"
