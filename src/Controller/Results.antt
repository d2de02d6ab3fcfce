-- ===== src/Controller/Results.antt =====
-- What a finished Job reports: readTriageResult and readFixResult, which take the termination
-- message of the first container that exited with 0 and wrote one.
use hal_agent_operator.Base.{
  Text, List, [], ◌∷◌, ◌++◌, Option, none, some, Bool, ℤ, pos, eqb_ℤ, utf8, is_empty, failure,
  error_text, Result, ok, err, if◌then◌else◌,
}
use hal_agent_operator.Api.{IssueResolution}
use hal_agent_operator.Kube.{ContainerStatus, Pod, Labels, Job, Cluster}
use hal_agent_operator.Controller.Config.{Reconciler, gemini_model}
use hal_agent_operator.Controller.Jobs.{
  label_issue_resolution, label_job_role, label_job_controller_uid, job_role_triage, job_role_fix,
}

pub record TriageJobResult : Type 0 where
  pub in_scope : Bool
  pub suspicious : Bool
  pub summary : Text
  pub model : Text
  pub parse_error : Bool
  pub comment_url : Text

pub record FixJobResult : Type 0 where
  pub pr_url : Text
  pub pr_number : ℤ  -- int32
  pub branch : Text
  pub attempt : ℤ  -- int32
  pub error : Text

-- json.Unmarshal of a termination message, at the two types that are read.
pub record Json : Type 0 where
  pub unmarshal_triage : Text → Result TriageJobResult
  pub unmarshal_fix : Text → Result FixJobResult

-- The message of one container, where the loop does not `continue` past it.
unfoldable pub trusted_message : ContainerStatus → Option Text
trusted_message cs = elim cs.terminated [
  | none ↦ none
  | some t ↦
      if eqb_ℤ t.exit_code (pos 0)
      then (if is_empty t.message then none else some t.message)
      else none
]

-- The loop over the containers of a pod; `or_else` is what the loop over the pods goes on with.
unfoldable pub first_in_pod : List ContainerStatus → Option Text → Option Text
first_in_pod [] or_else = or_else
first_in_pod (cs ∷ css) or_else =
    let rest = first_in_pod css or_else in
    elim (trusted_message cs) [ some m ↦ some m | none ↦ rest ]

-- The loop over the pods.
unfoldable pub first_trusted : List Pod → Option Text
unfolding first_in_pod
first_trusted [] = none
first_trusted (pod ∷ pods) = first_in_pod pod.container_statuses (first_trusted pods)

-- The labels that select the pods of a Job.
unfoldable pub job_pod_labels : IssueResolution → Text → Job → Labels
job_pod_labels ir role job =
    (label_issue_resolution, ir.name)
    ∷ (label_job_role, role)
    ∷ (label_job_controller_uid, job.uid)
    ∷ []

abbrev no_message : Job → Text
no_message job =
    utf8 "no successful termination message on pods of job "
    ++ (job.name ++ (utf8 " (check kubectl logs job/" ++ (job.name ++ utf8 ")")))

-- What `fmt.Errorf("parse termination message: %w", err)` makes of a failed parse.
abbrev pub parsed {ℓ} : {A : Type ℓ} → Result A → Result A
parsed (ok a) = ok a
parsed (err e) = err (failure (utf8 "parse termination message: " ++ error_text e))

-- A report that names no model is given the configured one.
unfoldable pub with_model : Reconciler → TriageJobResult → TriageJobResult
with_model r tr = if is_empty tr.model then record tr { model = gemini_model r } else tr

abbrev pub map_model : Reconciler → Result TriageJobResult → Result TriageJobResult
map_model r (ok tr) = ok (with_model r tr)
map_model r (err e) = err e

module _ {World : Type 0} (c : Cluster World) (j : Json) (r : Reconciler) where
  unfoldable pub read_fix_result : World → IssueResolution → Job → Result FixJobResult
  read_fix_result w ir job =
      elim (c.list_pods w ir.namespace (job_pod_labels ir job_role_fix job)) [
        | err e ↦ err e
        | ok pods ↦ elim (first_trusted pods) [
          | some m ↦ parsed (j.unmarshal_fix m)
          | none ↦ err (failure (no_message job))
        ]
      ]

  unfoldable pub read_triage_result : World → IssueResolution → Job → Result TriageJobResult
  unfolding with_model
  read_triage_result w ir job =
      elim (c.list_pods w ir.namespace (job_pod_labels ir job_role_triage job)) [
        | err e ↦ err e
        | ok pods ↦ elim (first_trusted pods) [
          | some m ↦ map_model r (parsed (j.unmarshal_triage m))
          | none ↦ err (failure (no_message job))
        ]
      ]
