-- ===== src/Fix/Environment.antt =====
-- internal/controller against cmd/fix/main.go: the environment of the fix Job, as the worker reads it.
use hal_agent_operator.Base.{
  ℕ, ℤ, pos, negsuc, Text, List, [], ◌∷◌, ◌≡◌, ◌≢◌, ◌<◌, ◌^◌, refl, ap, ◌∙◌, arith, All, none, utf8,
  decimal, is_empty, parse_int32, parse_int32-decimal_ℕ, decimal_ℕ-nonempty, IsDigits,
  decimal_ℕ-IsDigits, ◌+◌, if◌then◌else◌, false,
}
use hal_agent_operator.Defaults
use hal_agent_operator.Api.{IssueResolution}
use hal_agent_operator.Kube.{EnvVar}
use hal_agent_operator.Kube.Environment.{IsEnvironment, IsPlain, value_of}
use hal_agent_operator.Gemini.{truncate_runes}
use hal_agent_operator.Controller.{
  Reconciler, gemini_model, gemini_secret_name, gemini_secret_key, github_fix_secret_name,
  github_secret_key,
}
use hal_agent_operator.Controller.Jobs.{env_text, fix_env, fix_work_dir}
use hal_agent_operator.Fix.Config.{
  FixConfig, max_body_runes, env_or, read_config, check_config, load_config,
}

-- The configuration of the worker of an attempt: the texts of the issue and of its triage come as the
-- kubelet expands them, everything else as the controller wrote it.
pub intended :
    Reconciler → (expand secret : Text → Text → Text) → IssueResolution → ℕ → Text → FixConfig
intended r expand secret ir n branch = record {
  repository = ir.spec.repository;
  issue_number = decimal ir.spec.issue_number;
  title = expand (utf8 "ISSUE_TITLE") ir.spec.title;
  body = truncate_runes (expand (utf8 "ISSUE_BODY") ir.spec.body) max_body_runes;
  triage_summary = expand (utf8 "TRIAGE_SUMMARY") ir.status.triage.summary;
  api_key = secret (gemini_secret_name r) (gemini_secret_key r);
  model = gemini_model r;
  github_token = secret (github_fix_secret_name r) (github_secret_key r);
  branch_name = branch;
  base_branch = ir.spec.base_branch;
  attempt = pos n;
  work_dir = fix_work_dir;
}

env_or-set :
    (getenv : Text → Text) (key fallback v : Text)
    → getenv key ≡ v
    → v ≢ []
    → env_or getenv key fallback ≡ v
unfolding env_or
env_or-set getenv key fallback [] e n = absurd (n refl)
env_or-set getenv key fallback (c ∷ t) e n = rw e refl

not_empty : (t : Text) → t ≢ [] → is_empty t ≡ false
not_empty [] n = absurd (n refl)
not_empty (c ∷ t) n = refl

decimal-nonempty : (i : ℤ) → decimal i ≢ []
unfolding decimal
decimal-nonempty (pos n) = decimal_ℕ-nonempty n
decimal-nonempty (negsuc n) = λ e. ground arith

model_named : (r : Reconciler) → gemini_model r ≢ []
unfolding gemini_model utf8
model_named r e = ground arith

work_dir_named : fix_work_dir ≢ []
unfolding utf8
work_dir_named e = ground arith

attempt_read : (n : ℕ) → n < 2 ^ 31 → parse_int32 (decimal (pos n)) ≡ pos n
unfolding decimal
attempt_read n l = parse_int32-decimal_ℕ n l

digits-IsPlain : (t : Text) → IsDigits t → IsPlain t
digits-IsPlain [] h = tt
digits-IsPlain (c ∷ t) (low, high, h) = (λ e. omega arith, digits-IsPlain t h)

decimal-IsPlain : (i : ℤ) → IsPlain (decimal i)
unfolding decimal
decimal-IsPlain (pos n) = digits-IsPlain _ (decimal_ℕ-IsDigits n)
decimal-IsPlain (negsuc n) = (λ e. ground arith, digits-IsPlain _ (decimal_ℕ-IsDigits (n + 1)))

work_dir_plain : IsPlain fix_work_dir
unfolding utf8
work_dir_plain = ground arith

-- No `$` stands in what the settings and the object give beside the texts of the issue.
pub record IsPlainSetup (r : Reconciler) (ir : IssueResolution) (branch : Text) : Type 0 where
  pub repository : IsPlain ir.spec.repository
  pub model : IsPlain (gemini_model r)
  pub branch_name : IsPlain branch
  pub base_branch : IsPlain ir.spec.base_branch

module _ (r : Reconciler) (ir : IssueResolution) (n : ℕ) (branch : Text)
    (getenv ambient : Text → Text) (expand secret : Text → Text → Text) where
  abbrev Provided : EnvVar → Type 0
  Provided v = getenv v.name ≡ value_of (expand v.name) secret v.source

  abbrev OtherName : EnvVar → Type 0
  OtherName v = v.name ≢ utf8 "BASE_BRANCH"

  -- The variables that are there only where the object names a base branch.
  abbrev base : Text → List EnvVar
  base b = if is_empty b then [] else env_text "BASE_BRANCH" b ∷ []

  base_read :
      (b : Text)
      → All Provided (base b)
      → (expand (utf8 "BASE_BRANCH") b ≡ b)
      → (All OtherName (base b) → getenv (utf8 "BASE_BRANCH") ≡ [])
      → getenv (utf8 "BASE_BRANCH") ≡ b
  base_read [] h p unset = unset tt
  base_read (c ∷ t) (h, _) p unset = h ∙ p

  other_names :
      All OtherName (base ir.spec.base_branch) → All OtherName (fix_env r ir (pos n) branch)
  unfolding fix_env utf8
  other_names h = ground arith

  read_config-intended :
      IsEnvironment getenv ambient expand secret (fix_env r ir (pos n) branch)
      → ambient (utf8 "BASE_BRANCH") ≡ []
      → IsPlainSetup r ir branch
      → n < 2 ^ 31
      → read_config getenv ≡ intended r expand secret ir n branch
  unfolding read_config fix_env intended
  read_config-intended env a p l =
      let (
        repo,
        (
          num,
          (
            title,
            (
              body,
              (
                summary,
                (model, (key, (token, (br, (attempt, (dir, (_, (_, (_, (_, (_, b))))))))))),
              ),
            ),
          ),
        ),
      ) =
        env.provided in
      let base_branch =
        base_read ir.spec.base_branch b (env.plain _ _ p.base_branch)
          (λ o. env.others (utf8 "BASE_BRANCH") (other_names o) ∙ a) in
      rw
        (
          repo ∙ env.plain _ _ p.repository,
          num ∙ env.plain _ _ (decimal-IsPlain ir.spec.issue_number),
          title,
          body,
          summary,
          key,
          token,
          br ∙ env.plain _ _ p.branch_name,
          base_branch,
          env_or-set getenv (utf8 "GEMINI_MODEL") Defaults.gemini_model (gemini_model r)
              (model ∙ env.plain _ _ p.model) (model_named r),
          env_or-set getenv (utf8 "FIX_ATTEMPT") (utf8 "1") (decimal (pos n))
              (attempt ∙ env.plain _ _ (decimal-IsPlain (pos n))) (decimal-nonempty (pos n)),
          env_or-set getenv (utf8 "WORKDIR") (utf8 "/workspace") fix_work_dir
              (dir ∙ env.plain _ _ work_dir_plain) work_dir_named,
          attempt_read n l,
        )
        refl

  -- The worker of a fix Job that the controller builds for an attempt, in the environment that the
  -- Job gives it, has the configuration that the controller means: that attempt and branch, the
  -- issue with its body cut to 12000 runes, and the keys; title, body and triage summary are as the
  -- kubelet has expanded them, so without a `$` they are those of the object. What has to be there is
  -- the repository, the branch and both Secret values; the repository, the model and the branches
  -- hold no `$`, and neither the image nor the kubelet sets a BASE_BRANCH of its own.
  pub load_config-fix_env :
      IsEnvironment getenv ambient expand secret (fix_env r ir (pos n) branch)
      → ambient (utf8 "BASE_BRANCH") ≡ []
      → IsPlainSetup r ir branch
      → n < 2 ^ 31
      → ir.spec.repository ≢ []
      → branch ≢ []
      → secret (gemini_secret_name r) (gemini_secret_key r) ≢ []
      → secret (github_fix_secret_name r) (github_secret_key r) ≢ []
      → load_config getenv ≡ (intended r expand secret ir n branch, none)
  unfolding load_config check_config intended
  load_config-fix_env env a p l repo br key token =
      ap check_config (read_config-intended env a p l)
      ∙ rw
          (
            not_empty _ repo,
            not_empty _ (decimal-nonempty ir.spec.issue_number),
            not_empty _ key,
            not_empty _ token,
            not_empty _ br,
          )
          refl
