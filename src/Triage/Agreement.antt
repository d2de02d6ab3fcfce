-- ===== src/Triage/Agreement.antt =====
-- cmd/triage/github.go against internal/controller: the labels of an issue and the phase of its object.
use hal_agent_operator.Base.{
  Bool, true, false, not, ◌&&◌, ok, ◌≡◌, ◌↔◌, refl, arith, utf8, if◌then◌else◌,
}
use hal_agent_operator.Api.{IssueResolution, Phase, pending_validation, rejected}
use hal_agent_operator.Kube.{Cluster}
use hal_agent_operator.Controller.{Reconciler}
use hal_agent_operator.Controller.Results.{TriageJobResult, Json}
use hal_agent_operator.Controller.Triage.{triage_succeeded, accept_triage}
use hal_agent_operator.Triage.Report.{TriageResult}
use hal_agent_operator.Triage.Labels.{triage_label_plan, label_pending_validation, label_rejected}
use hal_agent_operator.Triage.Sync.{contains}

-- The report that the controller reads carries the worker's verdict.
abbrev pub Carries : TriageResult → TriageJobResult → Type 0
Carries result tr =
    (tr.in_scope ≡ result.in_scope)
    × (tr.suspicious ≡ result.suspicious)
    × (tr.parse_error ≡ result.parse_error)

planned :
    (result : TriageResult) (n s : Bool)
    → result.in_scope ≡ n
    → result.suspicious ≡ s
    → (contains (triage_label_plan result).0 label_pending_validation ≡ (n && not s))
      × (contains (triage_label_plan result).0 label_rejected ≡ not (n && not s))
unfolding triage_label_plan utf8
planned result true true e f = rw (e, f) (refl, refl)
planned result true false e f = rw (e, f) (refl, refl)
planned result false true e f = rw (e, f) (refl, refl)
planned result false false e f = rw (e, f) (refl, refl)

phase_of_verdict : Bool → Phase
phase_of_verdict passed = if passed then pending_validation else rejected

iff_pending : (passed : Bool) → (passed ≡ true) ↔ (phase_of_verdict passed ≡ pending_validation)
unfolding phase_of_verdict
iff_pending passed = grind (arith, pending_validation, rejected)

iff_rejected : (passed : Bool) → (not passed ≡ true) ↔ (phase_of_verdict passed ≡ rejected)
unfolding phase_of_verdict
iff_rejected passed = grind (arith, pending_validation, rejected)

module _ {World : Type 0} (c : Cluster World) (j : Json) (r : Reconciler) (ir : IssueResolution)
    (result : TriageResult) (tr : TriageJobResult) where
  verdict_phase :
      Carries result tr
      → result.parse_error ≡ false
      → (triage_succeeded c j r ir (ok tr)).0.status.phase
        ≡ (if result.in_scope && not result.suspicious then pending_validation else rejected)
  unfolding triage_succeeded accept_triage
  verdict_phase (n, s, p) e = ground arith

  -- Where the model's answer was read, the worker labels the issue agent:pending-validation just
  -- where the controller puts its object into PendingValidation, and agent:rejected just where it
  -- puts it into Rejected.
  pub labels_agree :
      Carries result tr
      → result.parse_error ≡ false
      → let phase = (triage_succeeded c j r ir (ok tr)).0.status.phase in
        let add = (triage_label_plan result).0 in
        ((contains add label_pending_validation ≡ true) ↔ (phase ≡ pending_validation))
        × ((contains add label_rejected ≡ true) ↔ (phase ≡ rejected))
  unfolding phase_of_verdict
  labels_agree h e =
      let passed = result.in_scope && not result.suspicious in
      let (p, q) = planned result result.in_scope result.suspicious refl refl in
      rw (p, q, verdict_phase h e) (iff_pending passed, iff_rejected passed)
