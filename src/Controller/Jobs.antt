-- ===== src/Controller/Jobs.antt =====
-- The names and the Jobs of the two roles: buildTriageJob and buildFixJob.
use hal_agent_operator.Base.{
  Text, List, [], ◌∷◌, ◌++◌, none, some, true, false, ℤ, pos, utf8, decimal, is_empty, Result,
  if◌then◌else◌,
}
use Prim.Native.String.{String}
use hal_agent_operator.Api.{IssueResolution}
use hal_agent_operator.Defaults
use hal_agent_operator.Kube.{
  EnvVar, literal, secret_key_ref, runtime_default, never, PodSpec, Labels, empty_dir, Job, Cluster,
}
use hal_agent_operator.Controller.Config.{
  Reconciler, triage_image, gemini_secret_name, gemini_secret_key, gemini_model, fix_image,
  github_triage_secret_name, github_fix_secret_name, github_secret_key, job_triage_service_account,
  job_fix_service_account,
}

abbrev pub label_issue_resolution : Text
label_issue_resolution = utf8 "hal.dev/issueresolution"

abbrev pub label_job_role : Text
label_job_role = utf8 "hal.dev/job-role"

abbrev pub job_role_triage : Text
job_role_triage = utf8 "triage"

abbrev pub job_role_fix : Text
job_role_fix = utf8 "fix"

abbrev pub label_job_controller_uid : Text
label_job_controller_uid = utf8 "batch.kubernetes.io/controller-uid"

abbrev pub fix_work_dir : Text
fix_work_dir = utf8 "/workspace"

unfoldable pub triage_job_name : IssueResolution → Text
triage_job_name ir = ir.name ++ utf8 "-triage"

unfoldable pub fix_job_name : IssueResolution → ℤ → Text
fix_job_name ir attempt = ir.name ++ (utf8 "-fix-" ++ decimal attempt)

unfoldable pub fix_branch_name : IssueResolution → ℤ → Text
fix_branch_name ir attempt =
    utf8 "bugfix/issue-" ++ (decimal ir.spec.issue_number ++ (utf8 "-attempt-" ++ decimal attempt))

-- The labels of a Job and of its pods.
abbrev pub job_labels : IssueResolution → Text → Labels
job_labels ir role = (label_issue_resolution, ir.name) ∷ (label_job_role, role) ∷ []

unfoldable pub apply_job_pod_runtime_class : Reconciler → PodSpec → PodSpec
apply_job_pod_runtime_class r spec =
    if is_empty r.job_runtime_class_name
    then spec
    else record spec { runtime_class_name = some r.job_runtime_class_name }

abbrev pub env_text : String → Text → EnvVar
env_text name v = record { name = utf8 name; source = literal v }

-- The environment of the fix container.
unfoldable pub fix_env : Reconciler → IssueResolution → ℤ → Text → List EnvVar
fix_env r ir attempt branch =
    env_text "ISSUE_REPOSITORY" ir.spec.repository
    ∷ env_text "ISSUE_NUMBER" (decimal ir.spec.issue_number)
    ∷ env_text "ISSUE_TITLE" ir.spec.title
    ∷ env_text "ISSUE_BODY" ir.spec.body
    ∷ env_text "TRIAGE_SUMMARY" ir.status.triage.summary
    ∷ env_text "GEMINI_MODEL" (gemini_model r)
    ∷ record {
      name = utf8 "GEMINI_API_KEY";
      source = secret_key_ref (gemini_secret_name r) (gemini_secret_key r);
    }
    ∷ record {
      name = Defaults.github_secret_key;
      source = secret_key_ref (github_fix_secret_name r) (github_secret_key r);
    }
    ∷ env_text "BRANCH_NAME" branch
    ∷ env_text "FIX_ATTEMPT" (decimal attempt)
    ∷ env_text "WORKDIR" fix_work_dir
    ∷ env_text "HOME" fix_work_dir
    ∷ env_text "GOCACHE" (fix_work_dir ++ utf8 "/.cache")
    ∷ env_text "GOMODCACHE" (fix_work_dir ++ utf8 "/gomod")
    ∷ env_text "GOPATH" (fix_work_dir ++ utf8 "/go")
    ∷ env_text "TMPDIR" (fix_work_dir ++ utf8 "/tmp")
    ∷ (if is_empty ir.spec.base_branch then [] else env_text "BASE_BRANCH" ir.spec.base_branch ∷ [])

-- The Job that buildFixJob hands to SetControllerReference.
unfoldable pub fix_job : Reconciler → IssueResolution → ℤ → Text → Job
unfolding fix_env apply_job_pod_runtime_class
fix_job r ir attempt branch = record {
  name = fix_job_name ir attempt;
  namespace = ir.namespace;
  labels = job_labels ir job_role_fix;
  owner = none;
  uid = [];
  backoff_limit = some (pos 0);
  active_deadline_seconds = some (pos 600);
  ttl_seconds_after_finished = some (pos 3600);
  template_labels = job_labels ir job_role_fix;
  template = apply_job_pod_runtime_class r (record {
    restart_policy = never;
    service_account_name = job_fix_service_account r;
    automount_service_account_token = some false;
    security = record {
      run_as_non_root = some true;
      run_as_user = some (pos 65532);
      seccomp_profile = some runtime_default;
    };
    containers =
        record {
          name = job_role_fix;
          image = fix_image r;
          command = (utf8 "/" ++ job_role_fix) ∷ [];
          security = record {
            allow_privilege_escalation = some false;
            read_only_root_filesystem = some true;
            drop = utf8 "ALL" ∷ [];
          };
          env = fix_env r ir attempt branch;
          volume_mounts = record { name = utf8 "workspace"; mount_path = fix_work_dir } ∷ [];
        }
        ∷ [];
    volumes = record { name = utf8 "workspace"; source = empty_dir } ∷ [];
    runtime_class_name = none;
  });
  succeeded = pos 0;
  failed = pos 0;
}

-- The environment of the triage container.
unfoldable pub triage_env : Reconciler → IssueResolution → List EnvVar
triage_env r ir =
    env_text "ISSUE_REPOSITORY" ir.spec.repository
    ∷ env_text "ISSUE_NUMBER" (decimal ir.spec.issue_number)
    ∷ env_text "ISSUE_AUTHOR" ir.spec.author
    ∷ env_text "ISSUE_TITLE" ir.spec.title
    ∷ env_text "ISSUE_BODY" ir.spec.body
    ∷ env_text "GEMINI_MODEL" (gemini_model r)
    ∷ record {
      name = utf8 "GEMINI_API_KEY";
      source = secret_key_ref (gemini_secret_name r) (gemini_secret_key r);
    }
    ∷ record {
      name = Defaults.github_secret_key;
      source = secret_key_ref (github_triage_secret_name r) (github_secret_key r);
    }
    ∷ []

-- The Job that buildTriageJob hands to SetControllerReference.
unfoldable pub triage_job : Reconciler → IssueResolution → Job
unfolding triage_env apply_job_pod_runtime_class
triage_job r ir = record {
  name = triage_job_name ir;
  namespace = ir.namespace;
  labels = job_labels ir job_role_triage;
  owner = none;
  uid = [];
  backoff_limit = some (pos 1);
  active_deadline_seconds = none;
  ttl_seconds_after_finished = some (pos 3600);
  template_labels = job_labels ir job_role_triage;
  template = apply_job_pod_runtime_class r (record {
    restart_policy = never;
    service_account_name = job_triage_service_account r;
    automount_service_account_token = some false;
    security = record {
      run_as_non_root = some true;
      run_as_user = none;
      seccomp_profile = some runtime_default;
    };
    containers =
        record {
          name = job_role_triage;
          image = triage_image r;
          command = (utf8 "/" ++ job_role_triage) ∷ [];
          security = record {
            allow_privilege_escalation = some false;
            read_only_root_filesystem = some true;
            drop = utf8 "ALL" ∷ [];
          };
          env = triage_env r ir;
          volume_mounts = [];
        }
        ∷ [];
    volumes = [];
    runtime_class_name = none;
  });
  succeeded = pos 0;
  failed = pos 0;
}

module _ {World : Type 0} (c : Cluster World) (r : Reconciler) where
  unfoldable pub build_fix_job : IssueResolution → ℤ → Text → Result Job
  unfolding fix_job
  build_fix_job ir attempt branch = c.set_controller_reference ir (fix_job r ir attempt branch)

  unfoldable pub build_triage_job : IssueResolution → Result Job
  unfolding triage_job
  build_triage_job ir = c.set_controller_reference ir (triage_job r ir)
