-- ===== src/Operator/Settings.antt =====
-- cmd/main.go: which settings the Jobs get.
use hal_agent_operator.Base.{
  Text, List, [], ◌∷◌, Bool, utf8, is_empty, ◌≡◌, refl, ◌∙◌, ap, text_eq, if◌then◌else◌,
}
use hal_agent_operator.Defaults
use hal_agent_operator.Controller.{
  Reconciler, triage_image, fix_image, gemini_secret_name, gemini_secret_key, gemini_model,
  github_triage_secret_name, github_fix_secret_name, github_secret_key, job_triage_service_account,
  job_fix_service_account,
}
use hal_agent_operator.Operator.Flags.{
  Flags, Setting, set_text, set_bool, env_or, default_flags, put, with_text, with_bool,
  with_setting, parsed_flags,
}
use hal_agent_operator.Operator.Options.{reconciler}

-- The last value that a command line gives a flag, or the one that it had.
unfoldable pub last_value : Text → List Setting → Text → Text
last_value flag [] v = v
last_value flag (set_text name w ∷ settings) v =
    last_value flag settings (if text_eq name flag then w else v)
last_value flag (set_bool name b ∷ settings) v = last_value flag settings v

parsed_flags-last_value :
    (flag : Text) (get : Flags → Text)
    → ((name v : Text) (f : Flags) → get (with_text name v f) ≡ put flag name v (get f))
    → ((name : Text) (b : Bool) (f : Flags) → get (with_bool name b f) ≡ get f)
    → (settings : List Setting) (f : Flags)
    → get (parsed_flags settings f) ≡ last_value flag settings (get f)
unfolding parsed_flags with_setting last_value
parsed_flags-last_value flag get t b [] f = refl
parsed_flags-last_value flag get t b (set_text name v ∷ settings) f =
    parsed_flags-last_value flag get t b settings (with_text name v f)
    ∙ ap (last_value flag settings) (t name v f)
parsed_flags-last_value flag get t b (set_bool name v ∷ settings) f =
    parsed_flags-last_value flag get t b settings (with_bool name v f)
    ∙ ap (last_value flag settings) (b name v f)

module _ (getenv : Text → Text) (settings : List Setting) where
  -- The flag where it is given, else the variable of the environment, else the built-in value; where
  -- that is the empty text, the built-in value after all.
  abbrev pub chosen : (flag variable builtin : Text) → Text
  chosen flag variable builtin =
      let v = last_value flag settings (env_or getenv variable builtin) in
      if is_empty v then builtin else v

  pub record IsConfigured (r : Reconciler) : Type 0 where
    pub triage_image_chosen :
        triage_image r ≡ chosen (utf8 "triage-image") (utf8 "TRIAGE_IMAGE") Defaults.triage_image
    pub fix_image_chosen :
        fix_image r ≡ chosen (utf8 "fix-image") (utf8 "FIX_IMAGE") Defaults.fix_image
    pub gemini_secret_name_chosen :
        gemini_secret_name r
        ≡ chosen (utf8 "gemini-secret-name") (utf8 "GEMINI_SECRET_NAME") Defaults.gemini_secret_name
    pub gemini_secret_key_chosen :
        gemini_secret_key r
        ≡ chosen (utf8 "gemini-secret-key") (utf8 "GEMINI_SECRET_KEY") Defaults.gemini_secret_key
    pub gemini_model_chosen :
        gemini_model r ≡ chosen (utf8 "gemini-model") (utf8 "GEMINI_MODEL") Defaults.gemini_model
    pub github_triage_secret_name_chosen :
        github_triage_secret_name r
        ≡ chosen
            (utf8 "github-triage-secret-name")
            (utf8 "GITHUB_TRIAGE_SECRET_NAME")
            Defaults.github_triage_secret_name
    pub github_fix_secret_name_chosen :
        github_fix_secret_name r
        ≡ chosen
            (utf8 "github-fix-secret-name")
            (utf8 "GITHUB_FIX_SECRET_NAME")
            Defaults.github_fix_secret_name
    pub github_secret_key_chosen :
        github_secret_key r
        ≡ chosen (utf8 "github-secret-key") (utf8 "GITHUB_SECRET_KEY") Defaults.github_secret_key
    pub job_triage_service_account_chosen :
        job_triage_service_account r
        ≡ chosen
            (utf8 "job-triage-service-account")
            (utf8 "JOB_TRIAGE_SERVICE_ACCOUNT")
            Defaults.job_triage_service_account
    pub job_fix_service_account_chosen :
        job_fix_service_account r
        ≡ chosen
            (utf8 "job-fix-service-account")
            (utf8 "JOB_FIX_SERVICE_ACCOUNT")
            Defaults.job_fix_service_account
    pub job_runtime_class_name_chosen :
        r.job_runtime_class_name
        ≡ last_value
            (utf8 "job-runtime-class-name")
            settings
            (env_or getenv (utf8 "JOB_RUNTIME_CLASS_NAME") [])

  or_builtin :
      (builtin : Text) {v w : Text}
      → v ≡ w
      → (if is_empty v then builtin else v) ≡ (if is_empty w then builtin else w)
  or_builtin builtin e = ap (λ (v : Text). if is_empty v then builtin else v) e

  pub reconciler-IsConfigured :
      IsConfigured (reconciler (parsed_flags settings (default_flags getenv)))
  unfolding reconciler default_flags with_text with_bool triage_image fix_image gemini_secret_name
      gemini_secret_key gemini_model github_triage_secret_name github_fix_secret_name
      github_secret_key job_triage_service_account job_fix_service_account
  reconciler-IsConfigured = record {
    triage_image_chosen = or_builtin Defaults.triage_image (
        parsed_flags-last_value (utf8 "triage-image") (λ f. f.triage_image) (λ n v f. refl)
          (λ n b f. refl) settings (default_flags getenv));
    fix_image_chosen = or_builtin Defaults.fix_image (
        parsed_flags-last_value (utf8 "fix-image") (λ f. f.fix_image) (λ n v f. refl)
          (λ n b f. refl) settings (default_flags getenv));
    gemini_secret_name_chosen = or_builtin Defaults.gemini_secret_name (
        parsed_flags-last_value (utf8 "gemini-secret-name") (λ f. f.gemini_secret_name)
          (λ n v f. refl) (λ n b f. refl) settings (default_flags getenv));
    gemini_secret_key_chosen = or_builtin Defaults.gemini_secret_key (
        parsed_flags-last_value (utf8 "gemini-secret-key") (λ f. f.gemini_secret_key)
          (λ n v f. refl) (λ n b f. refl) settings (default_flags getenv));
    gemini_model_chosen = or_builtin Defaults.gemini_model (
        parsed_flags-last_value (utf8 "gemini-model") (λ f. f.gemini_model) (λ n v f. refl)
          (λ n b f. refl) settings (default_flags getenv));
    github_triage_secret_name_chosen = or_builtin Defaults.github_triage_secret_name (
        parsed_flags-last_value (utf8 "github-triage-secret-name")
          (λ f. f.github_triage_secret_name) (λ n v f. refl) (λ n b f. refl) settings
          (default_flags getenv));
    github_fix_secret_name_chosen = or_builtin Defaults.github_fix_secret_name (
        parsed_flags-last_value (utf8 "github-fix-secret-name") (λ f. f.github_fix_secret_name)
          (λ n v f. refl) (λ n b f. refl) settings (default_flags getenv));
    github_secret_key_chosen = or_builtin Defaults.github_secret_key (
        parsed_flags-last_value (utf8 "github-secret-key") (λ f. f.github_secret_key)
          (λ n v f. refl) (λ n b f. refl) settings (default_flags getenv));
    job_triage_service_account_chosen = or_builtin Defaults.job_triage_service_account (
        parsed_flags-last_value (utf8 "job-triage-service-account")
          (λ f. f.job_triage_service_account) (λ n v f. refl) (λ n b f. refl) settings
          (default_flags getenv));
    job_fix_service_account_chosen = or_builtin Defaults.job_fix_service_account (
        parsed_flags-last_value (utf8 "job-fix-service-account") (λ f. f.job_fix_service_account)
          (λ n v f. refl) (λ n b f. refl) settings (default_flags getenv));
    job_runtime_class_name_chosen =
        parsed_flags-last_value (utf8 "job-runtime-class-name") (λ f. f.job_runtime_class_name)
          (λ n v f. refl) (λ n b f. refl) settings (default_flags getenv);
  }
