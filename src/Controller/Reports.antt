-- ===== src/Controller/Reports.antt =====
-- Whose message readTriageResult and readFixResult take: that of a container that exited with 0.
use hal_agent_operator.Base.{
  Result-cases, Text, List, [], ◌∷◌, Option, some, Option-cases, Result, ok, err, pos, arith, ◌≡◌,
  ◌≢◌, refl, ◌⊎◌, inl, inr, Any,
}
use hal_agent_operator.Api.{IssueResolution}
use hal_agent_operator.Kube.{ContainerStatus, Terminated, Pod, Job, Cluster}
use hal_agent_operator.Controller.Config.{Reconciler}
use hal_agent_operator.Controller.Jobs.{job_role_fix, job_role_triage}
use hal_agent_operator.Controller.Results.{
  FixJobResult, TriageJobResult, Json, parsed, trusted_message, map_model, with_model, first_in_pod,
  first_trusted, job_pod_labels, read_fix_result, read_triage_result,
}

-- The container exited with 0 and left the message `m`.
abbrev pub LeftMessage : Text → ContainerStatus → Type 0
LeftMessage m cs =
    (t : Terminated) × (cs.terminated ≡ some t) × (t.exit_code ≡ pos 0) × (t.message ≡ m) × (m ≢ [])

abbrev pub IsTrusted : Text → List Pod → Type 0
IsTrusted m = Any (λ pod. Any (LeftMessage m) pod.container_statuses)

trusted_message-LeftMessage :
    (cs : ContainerStatus) (m : Text) → trusted_message cs ≡ some m → LeftMessage m cs
unfolding trusted_message
trusted_message-LeftMessage cs m e = elim (Option-cases cs.terminated) [
  | inl n ↦ ground arith
  | inr (t, n) ↦ (t, n, ground arith, ground arith, ground arith)
]

first_in_pod-Any :
    (css : List ContainerStatus) (or_else : Option Text) (m : Text)
    → first_in_pod css or_else ≡ some m
    → Any (LeftMessage m) css ⊎ (or_else ≡ some m)
unfolding first_in_pod
first_in_pod-Any [] or_else m e = inr e
first_in_pod-Any (cs ∷ css) or_else m e = elim (Option-cases (trusted_message cs)) [
  | inl n ↦ elim (first_in_pod-Any css or_else m (ground arith)) [
    | inl a ↦ inl (inr a)
    | inr q ↦ inr q
  ]
  | inr (x, n) ↦ inl (inl (trusted_message-LeftMessage cs m (ground arith)))
]

first_trusted-IsTrusted :
    (pods : List Pod) (m : Text) → first_trusted pods ≡ some m → IsTrusted m pods
unfolding first_trusted
first_trusted-IsTrusted [] m e = cc
first_trusted-IsTrusted (pod ∷ pods) m e =
    elim (first_in_pod-Any pod.container_statuses (first_trusted pods) m e) [
      | inl a ↦ inl a
      | inr q ↦ inr (first_trusted-IsTrusted pods m q)
    ]

parsed-eq-ok {ℓ} : {A : Type ℓ} (x : Result A) (a : A) → parsed x ≡ ok a → x ≡ ok a
parsed-eq-ok (ok b) a e = e
parsed-eq-ok (err f) a e = cc

module _ {World : Type 0} (c : Cluster World) (j : Json) (r : Reconciler) where
  map_model-eq-ok :
      (x : Result TriageJobResult) (tr : TriageJobResult)
      → map_model r x ≡ ok tr
      → (read : TriageJobResult) × (x ≡ ok read) × (tr ≡ with_model r read)
  map_model-eq-ok (ok read) tr e = (read, refl, ground arith)
  map_model-eq-ok (err f) tr e = cc

  -- Where readTriageResult returns a report, the report is what some container of the Job's pods
  -- left that exited with 0, with the configured model where it names none.
  pub read_triage_result-IsTrusted :
      (w : World) (ir : IssueResolution) (job : Job) (tr : TriageJobResult)
      → read_triage_result c j r w ir job ≡ ok tr
      → (pods : List Pod) × (m : Text) × (read : TriageJobResult) × (c.list_pods w ir.namespace
            (job_pod_labels ir job_role_triage job)
          ≡ ok pods)
        × IsTrusted m pods
        × (j.unmarshal_triage m ≡ ok read)
        × (tr ≡ with_model r read)
  unfolding read_triage_result
  read_triage_result-IsTrusted w ir job tr e =
      elim (Result-cases (c.list_pods w ir.namespace (job_pod_labels ir job_role_triage job))) [
        | inr (x, l) ↦ ground arith
        | inl (pods, l) ↦ elim (Option-cases (first_trusted pods)) [
          | inl n ↦ ground arith
          | inr (m, n) ↦
              let (read, p, same) =
                map_model-eq-ok (parsed (j.unmarshal_triage m)) tr (ground arith) in
              (
                pods,
                m,
                read,
                l,
                first_trusted-IsTrusted pods m n,
                parsed-eq-ok (j.unmarshal_triage m) read p,
                same,
              )
        ]
      ]

  -- Where readFixResult returns a report, the report is what some container of the Job's pods left
  -- that exited with 0: the message of a failed attempt is never taken.
  pub read_fix_result-IsTrusted :
      (w : World) (ir : IssueResolution) (job : Job) (fr : FixJobResult)
      → read_fix_result c j r w ir job ≡ ok fr
      → (pods : List Pod) × (m : Text) × (c.list_pods w ir.namespace
            (job_pod_labels ir job_role_fix job)
          ≡ ok pods)
        × IsTrusted m pods
        × (j.unmarshal_fix m ≡ ok fr)
  unfolding read_fix_result
  read_fix_result-IsTrusted w ir job fr e =
      elim (Result-cases (c.list_pods w ir.namespace (job_pod_labels ir job_role_fix job))) [
        | inr (x, l) ↦ ground arith
        | inl (pods, l) ↦ elim (Option-cases (first_trusted pods)) [
          | inl n ↦ ground arith
          | inr (m, n) ↦ (
            pods,
            m,
            l,
            first_trusted-IsTrusted pods m n,
            parsed-eq-ok (j.unmarshal_fix m) fr (ground arith),
          )
        ]
      ]
