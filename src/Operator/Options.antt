-- ===== src/Operator/Options.antt =====
-- cmd/main.go: what main makes of its flags: the options of the servers and of the manager, and the
-- reconciler.
use hal_agent_operator.Base.{Text, List, [], ◌∷◌, Bool, true, false, utf8, is_empty, if◌then◌else◌}
use hal_agent_operator.Controller.{Reconciler}
use hal_agent_operator.Operator.Flags.{Flags}

-- webhook.Options: the protocols that a function of TLSOpts sets, none where there is no function.
pub record WebhookOptions : Type 0 where
  pub next_protos : List Text
  pub cert_dir : Text
  pub cert_name : Text
  pub key_name : Text

-- metricsserver.Options; `filtered` is FilterProvider set to WithAuthenticationAndAuthorization.
pub record MetricsOptions : Type 0 where
  pub bind_address : Text
  pub secure_serving : Bool
  pub next_protos : List Text
  pub filtered : Bool
  pub cert_dir : Text
  pub cert_name : Text
  pub key_name : Text

pub record ManagerOptions : Type 0 where
  pub metrics : MetricsOptions
  pub webhook : WebhookOptions
  pub health_probe_bind_address : Text
  pub leader_election : Bool
  pub leader_election_id : Text

-- tlsOpts
unfoldable pub tls_protos : Flags → List Text
tls_protos f = if f.enable_http2 then [] else utf8 "http/1.1" ∷ []

unfoldable pub webhook_options : Flags → WebhookOptions
webhook_options f =
    let plain : WebhookOptions = record {
      next_protos = tls_protos f;
      cert_dir = [];
      cert_name = [];
      key_name = [];
    } in
    if is_empty f.webhook_cert_path then plain else record plain {
      cert_dir = f.webhook_cert_path;
      cert_name = f.webhook_cert_name;
      key_name = f.webhook_cert_key;
    }

unfoldable pub metrics_options : Flags → MetricsOptions
metrics_options f =
    let plain : MetricsOptions = record {
      bind_address = f.metrics_addr;
      secure_serving = f.secure_metrics;
      next_protos = tls_protos f;
      filtered = if f.secure_metrics then true else false;
      cert_dir = [];
      cert_name = [];
      key_name = [];
    } in
    if is_empty f.metrics_cert_path then plain else record plain {
      cert_dir = f.metrics_cert_path;
      cert_name = f.metrics_cert_name;
      key_name = f.metrics_cert_key;
    }

unfoldable pub manager_options : Flags → ManagerOptions
manager_options f = record {
  metrics = metrics_options f;
  webhook = webhook_options f;
  health_probe_bind_address = f.probe_addr;
  leader_election = f.enable_leader_election;
  leader_election_id = utf8 "8cc98ad0.hal.dev";
}

unfoldable pub reconciler : Flags → Reconciler
reconciler f = record {
  triage_image = f.triage_image;
  fix_image = f.fix_image;
  gemini_secret_name = f.gemini_secret_name;
  gemini_secret_key = f.gemini_secret_key;
  gemini_model = f.gemini_model;
  github_triage_secret_name = f.github_triage_secret_name;
  github_fix_secret_name = f.github_fix_secret_name;
  github_secret_key = f.github_secret_key;
  job_triage_service_account = f.job_triage_service_account;
  job_fix_service_account = f.job_fix_service_account;
  job_runtime_class_name = f.job_runtime_class_name;
}
