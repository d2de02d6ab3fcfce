-- ===== src/Operator/Flags.antt =====
-- cmd/main.go: the flags, their defaults from the environment (envOr), and what the command line sets.
use hal_agent_operator.Base.{
  Text, List, [], ◌∷◌, Bool, true, false, utf8, is_empty, text_eq, if◌then◌else◌,
}
use hal_agent_operator.Defaults

-- The variables that package flag fills; those of zap's logger are left out.
pub record Flags : Type 0 where
  pub metrics_addr : Text
  pub probe_addr : Text
  pub enable_leader_election : Bool
  pub secure_metrics : Bool
  pub webhook_cert_path : Text
  pub webhook_cert_name : Text
  pub webhook_cert_key : Text
  pub metrics_cert_path : Text
  pub metrics_cert_name : Text
  pub metrics_cert_key : Text
  pub enable_http2 : Bool
  pub triage_image : Text
  pub fix_image : Text
  pub gemini_secret_name : Text
  pub gemini_secret_key : Text
  pub gemini_model : Text
  pub github_triage_secret_name : Text
  pub github_fix_secret_name : Text
  pub github_secret_key : Text
  pub job_triage_service_account : Text
  pub job_fix_service_account : Text
  pub job_runtime_class_name : Text

unfoldable pub env_or : (Text → Text) → Text → Text → Text
env_or getenv key fallback = if is_empty (getenv key) then fallback else getenv key

-- The values before flag.Parse.
unfoldable pub default_flags : (Text → Text) → Flags
default_flags getenv = record {
  metrics_addr = utf8 "0";
  probe_addr = utf8 ":8081";
  enable_leader_election = false;
  secure_metrics = true;
  webhook_cert_path = [];
  webhook_cert_name = utf8 "tls.crt";
  webhook_cert_key = utf8 "tls.key";
  metrics_cert_path = [];
  metrics_cert_name = utf8 "tls.crt";
  metrics_cert_key = utf8 "tls.key";
  enable_http2 = false;
  triage_image = env_or getenv (utf8 "TRIAGE_IMAGE") Defaults.triage_image;
  fix_image = env_or getenv (utf8 "FIX_IMAGE") Defaults.fix_image;
  gemini_secret_name = env_or getenv (utf8 "GEMINI_SECRET_NAME") Defaults.gemini_secret_name;
  gemini_secret_key = env_or getenv (utf8 "GEMINI_SECRET_KEY") Defaults.gemini_secret_key;
  gemini_model = env_or getenv (utf8 "GEMINI_MODEL") Defaults.gemini_model;
  github_triage_secret_name =
      env_or getenv (utf8 "GITHUB_TRIAGE_SECRET_NAME") Defaults.github_triage_secret_name;
  github_fix_secret_name =
      env_or getenv (utf8 "GITHUB_FIX_SECRET_NAME") Defaults.github_fix_secret_name;
  github_secret_key = env_or getenv (utf8 "GITHUB_SECRET_KEY") Defaults.github_secret_key;
  job_triage_service_account =
      env_or getenv (utf8 "JOB_TRIAGE_SERVICE_ACCOUNT") Defaults.job_triage_service_account;
  job_fix_service_account =
      env_or getenv (utf8 "JOB_FIX_SERVICE_ACCOUNT") Defaults.job_fix_service_account;
  job_runtime_class_name = env_or getenv (utf8 "JOB_RUNTIME_CLASS_NAME") [];
}

-- What the command line sets, one flag after the other: package flag gives a bool flag its value as
-- strconv.ParseBool reads it.
pub data Setting : Type 0 where
  set_text : (name value : Text) → Setting
  set_bool : (name : Text) → Bool → Setting

-- The variable that a flag is registered with takes the value; the others keep theirs.
abbrev pub put : {A : Type 0} → (flag name : Text) → A → A → A
put flag name v old = if text_eq name flag then v else old

unfoldable pub with_text : Text → Text → Flags → Flags
with_text name v f = record f {
  metrics_addr = put (utf8 "metrics-bind-address") name v f.metrics_addr;
  probe_addr = put (utf8 "health-probe-bind-address") name v f.probe_addr;
  webhook_cert_path = put (utf8 "webhook-cert-path") name v f.webhook_cert_path;
  webhook_cert_name = put (utf8 "webhook-cert-name") name v f.webhook_cert_name;
  webhook_cert_key = put (utf8 "webhook-cert-key") name v f.webhook_cert_key;
  metrics_cert_path = put (utf8 "metrics-cert-path") name v f.metrics_cert_path;
  metrics_cert_name = put (utf8 "metrics-cert-name") name v f.metrics_cert_name;
  metrics_cert_key = put (utf8 "metrics-cert-key") name v f.metrics_cert_key;
  triage_image = put (utf8 "triage-image") name v f.triage_image;
  fix_image = put (utf8 "fix-image") name v f.fix_image;
  gemini_secret_name = put (utf8 "gemini-secret-name") name v f.gemini_secret_name;
  gemini_secret_key = put (utf8 "gemini-secret-key") name v f.gemini_secret_key;
  gemini_model = put (utf8 "gemini-model") name v f.gemini_model;
  github_triage_secret_name =
      put (utf8 "github-triage-secret-name") name v f.github_triage_secret_name;
  github_fix_secret_name = put (utf8 "github-fix-secret-name") name v f.github_fix_secret_name;
  github_secret_key = put (utf8 "github-secret-key") name v f.github_secret_key;
  job_triage_service_account =
      put (utf8 "job-triage-service-account") name v f.job_triage_service_account;
  job_fix_service_account = put (utf8 "job-fix-service-account") name v f.job_fix_service_account;
  job_runtime_class_name = put (utf8 "job-runtime-class-name") name v f.job_runtime_class_name;
}

unfoldable pub with_bool : Text → Bool → Flags → Flags
with_bool name b f = record f {
  enable_leader_election = put (utf8 "leader-elect") name b f.enable_leader_election;
  secure_metrics = put (utf8 "metrics-secure") name b f.secure_metrics;
  enable_http2 = put (utf8 "enable-http2") name b f.enable_http2;
}

unfoldable pub with_setting : Setting → Flags → Flags
with_setting (set_text name v) f = with_text name v f
with_setting (set_bool name b) f = with_bool name b f

-- flag.Parse, where it accepts the command line.
unfoldable pub parsed_flags : List Setting → Flags → Flags
parsed_flags [] f = f
parsed_flags (x ∷ settings) f = parsed_flags settings (with_setting x f)
