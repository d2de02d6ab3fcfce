-- ===== src/Controller/Scenarios.antt =====
mod Passes
mod Progress
mod Traces
-- One issue from its creation to the pull request on the cluster in memory, and the theorems of
-- the controller at its states.
use mathlib.Core.List.{map}
use hal_agent_operator.Base.{
  Bool, true, false, Text, utf8, decimal, List, [], ◌∷◌, Option, none, some, Result, ok, arith, ◌≡◌,
  refl, ◌⊎◌, inl, inr, ℤ, pos, Any, not_found, err,
}
use hal_agent_operator.Api.{
  IssueResolution, IssueResolutionSpec, IssueResolutionStatus, Phase, triage, pending_validation,
  ready, executing, pr_open,
}
use hal_agent_operator.Kube.{Job, Pod, ContainerStatus, Terminated, ObjectKey}
use hal_agent_operator.Kube.Laws.{new_status, key_of}
use hal_agent_operator.Controller.Config.{
  Reconciler, triage_image, gemini_secret_name, gemini_secret_key, gemini_model, fix_image,
  github_triage_secret_name, github_fix_secret_name, github_secret_key, job_triage_service_account,
  job_fix_service_account, first_non_empty,
}
use hal_agent_operator.Controller.Jobs.{
  triage_job_name, fix_job_name, fix_branch_name, build_triage_job, build_fix_job,
}
use hal_agent_operator.Controller.Results.{
  Json, TriageJobResult, FixJobResult, read_triage_result, read_fix_result, first_trusted,
  trusted_message, job_pod_labels,
}
use hal_agent_operator.Controller.Handlers.{
  CtrlResult, attempt_of, max_attempts_of, create_built, handle_fix_failure,
}
use hal_agent_operator.Controller.Triage.{observe_triage}
use hal_agent_operator.Controller.Fix.{
  start_fix, observe_fix, fix_with_job, fix_succeeded, accept_fix,
}
use hal_agent_operator.Controller.Reconcile.{reconcile}
use hal_agent_operator.Controller.Runs.{History, remember, IsOutside, Run, start, pass, outside}
use hal_agent_operator.Controller.Gate.{IsVetted, IsApproval, fix_is_gated}
use hal_agent_operator.Controller.Fake.{
  Fake, fake, stored_at, found, find_job, patched, set_in, fake_laws,
}

abbrev pub settings : Reconciler
settings = record {
  triage_image = [];
  fix_image = [];
  gemini_secret_name = [];
  gemini_secret_key = [];
  gemini_model = [];
  github_triage_secret_name = [];
  github_fix_secret_name = [];
  github_secret_key = [];
  job_triage_service_account = [];
  job_fix_service_account = [];
  job_runtime_class_name = [];
}

-- Reports that say the same whatever the message.
abbrev pub json : Json
json = record {
  unmarshal_triage = λ m. ok (record {
    in_scope = true;
    suspicious = false;
    summary = m;
    model = [];
    parse_error = false;
    comment_url = m;
  });
  unmarshal_fix =
      λ m. ok (record { pr_url = m; pr_number = pos 1; branch = m; attempt = pos 1; error = [] });
}

abbrev pub issue : IssueResolution
issue = record {
  name = utf8 "issue-7";
  namespace = utf8 "hal";
  generation = pos 1;
  spec = record {
    repository = utf8 "o/r";
    issue_number = pos 7;
    issue_url = [];
    author = utf8 "a";
    author_association = [];
    title = utf8 "t";
    body = [];
    labels = [];
    created_at = none;
    approved = false;
    approved_by = [];
    approved_at = none;
    max_fix_attempts = some (pos 2);
    base_branch = [];
  };
  status = new_status;
}

abbrev key : ObjectKey
key = key_of issue

-- A pod whose one container exited with 0 and left a message.
abbrev succeeded_pod : Pod
succeeded_pod = record {
  labels = [];
  container_statuses =
      record { terminated = some (record { exit_code = pos 0; message = utf8 "m" }) } ∷ [];
}

abbrev succeed : Job → Job
succeed job = record job { succeeded = pos 1 }

abbrev approve : IssueResolution → IssueResolution
approve ir = record ir { spec = record ir.spec { approved = true } }

abbrev approve_stored : Option IssueResolution → Option IssueResolution
approve_stored none = none
approve_stored (some ir) = some (approve ir)

next : Fake → Fake
unfolding reconcile found stored_at find_job patched set_in utf8 decimal triage_job_name
    fix_job_name build_triage_job build_fix_job create_built attempt_of max_attempts_of start_fix
    observe_fix fix_with_job fix_succeeded accept_fix read_triage_result read_fix_result
    first_trusted trusted_message job_pod_labels
next w = (reconcile fake json settings w key).0

-- The Jobs succeed.
progress : Fake → Fake
progress w = record w { jobs = map succeed w.jobs; pods = succeeded_pod ∷ [] }

approve_in : Fake → Fake
approve_in w = record w { issue = approve_stored w.issue }

abbrev empty : Fake
empty = record { issue = none; jobs = []; history = []; pods = [] }

abbrev opened : Fake
opened = record empty { issue = some issue }

phase_in : Fake → Option Phase
phase_in w = elim w.issue [ none ↦ none | some ir ↦ some ir.status.phase ]

triaging : Fake
unfolding next
triaging = next opened

waiting : Fake
unfolding triaging next progress
waiting = next (progress triaging)

approved : Fake
unfolding waiting approve_in next
approved = next (approve_in waiting)

fixing : Fake
unfolding approved next
fixing = next approved

lifecycle :
    (phase_in triaging ≡ some triage)
    × (phase_in waiting ≡ some pending_validation)
    × (phase_in approved ≡ some ready)
    × (phase_in fixing ≡ some executing)
    × (phase_in (next (progress fixing)) ≡ some pr_open)
unfolding phase_in fixing
lifecycle = (refl, refl, refl, refl, refl)
