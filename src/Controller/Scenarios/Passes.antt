-- ===== src/Controller/Scenarios/Passes.antt =====
-- The theorems on single passes, on names and on reports, at states of the scenario.
use hal_agent_operator.Base.{
  ℕ, ◌+◌, ◌<◌, true, false, Text, utf8, [], ◌∷◌, List, ok, arith, ◌≡◌, refl, inl, pos,
}
use hal_agent_operator.Api.{Phase, IssueResolution, triage, ready, failed, pending_validation}
use hal_agent_operator.Kube.{Job, Pod}
use hal_agent_operator.Controller.Config.{
  gemini_model, gemini_secret_name, gemini_secret_key, github_triage_secret_name,
  github_fix_secret_name, github_secret_key,
}
use hal_agent_operator.Controller.Jobs.{
  triage_job_name, triage_job, triage_env, fix_env, fix_job, job_role_fix, job_role_triage,
}
use hal_agent_operator.Controller.Results.{
  FixJobResult, TriageJobResult, first_trusted, trusted_message, job_pod_labels, read_fix_result,
  read_triage_result, with_model,
}
use hal_agent_operator.Controller.Handlers.{set_phase, attempt_of, reconcile_pending_validation}
use hal_agent_operator.Controller.Reconcile.{dispatch}
use hal_agent_operator.Controller.Diagram.{Step}
use hal_agent_operator.Controller.Passes.{pass-Step}
use hal_agent_operator.Controller.Attempts.{fix_job_name-injective}
use hal_agent_operator.Controller.Retries.{after_failures, failures_end}
use hal_agent_operator.Controller.Safety.{existing_job_is_kept, triage_key}
use hal_agent_operator.Controller.Security.{
  secret_refs, secrets_of_roles, matches, pod_labels, reports_are_found,
}
use hal_agent_operator.Controller.Reports.{
  IsTrusted, read_fix_result-IsTrusted, read_triage_result-IsTrusted,
}
use hal_agent_operator.Controller.Fake.{Fake, fake, found, find_job}
use hal_agent_operator.Controller.Scenarios.{settings, json, issue, empty, succeeded_pod, approve}

-- The issue in a phase.
abbrev in_phase : Phase → IssueResolution
in_phase p = set_phase p issue

abbrev waiting_approved : IssueResolution
waiting_approved = approve (in_phase pending_validation)

pass-Step_example :
    Step waiting_approved (reconcile_pending_validation fake waiting_approved).0.status
unfolding dispatch
pass-Step_example =
    pass-Step fake json settings empty empty waiting_approved
      (reconcile_pending_validation fake waiting_approved).0
      (reconcile_pending_validation fake waiting_approved).1 refl

-- The triage Job of the issue, whose first pod has failed.
abbrev broken_job : Job
broken_job = record (triage_job settings issue) { failed = pos 1 }

abbrev broken : Fake
broken = record empty { jobs = broken_job ∷ [] }

broken_found : fake.get_job broken (triage_key issue) ≡ ok broken_job
unfolding found find_job triage_job triage_job_name utf8
broken_found = refl

existing_job_is_kept_example :
    (dispatch fake json settings triage broken (in_phase triage)).0 ≡ broken
unfolding triage_job_name
existing_job_is_kept_example =
    existing_job_is_kept fake json settings broken (in_phase triage) broken_job
      (inl (refl, broken_found))

fix_job_name-injective_example : pos 3 ≡ pos 3
fix_job_name-injective_example = fix_job_name-injective issue (pos 3) (pos 3) refl

failures_end_example :
    ((n : ℕ)
      → n < 2
      → (attempt_of (after_failures fake [] n (in_phase ready)) ≡ pos (n + 1))
        × ((after_failures fake [] n (in_phase ready)).status.phase ≡ ready))
    × ((after_failures fake [] 2 (in_phase ready)).status.phase ≡ failed)
failures_end_example =
    failures_end fake [] 2 (in_phase ready) refl refl refl (omega arith) (omega arith)

secrets_of_roles_example :
    (secret_refs (triage_env settings issue)
      ≡ (gemini_secret_name settings, gemini_secret_key settings)
        ∷ (github_triage_secret_name settings, github_secret_key settings)
        ∷ [])
    × (secret_refs (fix_env settings issue (pos 1) [])
        ≡ (gemini_secret_name settings, gemini_secret_key settings)
          ∷ (github_fix_secret_name settings, github_secret_key settings)
          ∷ [])
secrets_of_roles_example = secrets_of_roles settings issue (pos 1) []

reports_are_found_example :
    let fix = record (fix_job settings issue (pos 1) []) { uid = utf8 "u" } in
    let triage = record (triage_job settings issue) { uid = utf8 "u" } in
    (matches (job_pod_labels issue job_role_fix fix) (pod_labels fix) ≡ true)
    × (matches (job_pod_labels issue job_role_triage triage) (pod_labels triage) ≡ true)
    × (matches (job_pod_labels issue job_role_fix broken_job) (pod_labels triage) ≡ false)
    × (matches (job_pod_labels issue job_role_triage broken_job) (pod_labels fix) ≡ false)
reports_are_found_example = reports_are_found settings issue (pos 1) [] (utf8 "u") broken_job

abbrev reported : Fake
reported = record empty { pods = succeeded_pod ∷ [] }

abbrev fix_report : FixJobResult
fix_report = record {
  pr_url = utf8 "m";
  pr_number = pos 1;
  branch = utf8 "m";
  attempt = pos 1;
  error = [];
}

fix_report_read : read_fix_result fake json settings reported issue broken_job ≡ ok fix_report
unfolding read_fix_result first_trusted trusted_message utf8
fix_report_read = refl

read_fix_result-IsTrusted_example :
    (pods : List Pod) × (m : Text) × (fake.list_pods reported issue.namespace
        (job_pod_labels issue job_role_fix broken_job)
      ≡ ok pods)
    × IsTrusted m pods
    × (json.unmarshal_fix m ≡ ok fix_report)
read_fix_result-IsTrusted_example =
    read_fix_result-IsTrusted fake json settings reported issue broken_job fix_report
      fix_report_read

abbrev triage_report : TriageJobResult
triage_report = record {
  in_scope = true;
  suspicious = false;
  summary = utf8 "m";
  model = utf8 "gemini-3.1-flash-lite";
  parse_error = false;
  comment_url = utf8 "m";
}

triage_report_read :
    read_triage_result fake json settings reported issue broken_job ≡ ok triage_report
unfolding read_triage_result first_trusted trusted_message utf8 gemini_model
triage_report_read = refl

read_triage_result-IsTrusted_example :
    (pods : List Pod) × (m : Text) × (read : TriageJobResult) × (fake.list_pods reported
        issue.namespace
        (job_pod_labels issue job_role_triage broken_job)
      ≡ ok pods)
    × IsTrusted m pods
    × (json.unmarshal_triage m ≡ ok read)
    × (triage_report ≡ with_model settings read)
read_triage_result-IsTrusted_example =
    read_triage_result-IsTrusted fake json settings reported issue broken_job triage_report
      triage_report_read
