-- ===== src/Controller/Handlers.antt =====
-- What the handlers share: ctrl.Result, the setters of the status, the messages, and the handlers
-- that look at no Job (reconcilePendingValidation, handleFixFailure).
use hal_agent_operator.Base.{
  ℕ, ℤ, pos, add32, ltb_ℤ, eqb_ℤ, Text, ◌++◌, Bool, Option, none, some, not, utf8, decimal,
  error_text, Error, Result, ok, err, if◌then◌else◌,
}
use hal_agent_operator.Api.{
  Phase, ready, pr_open, failed, ConditionStatus, condition_true, condition_false, IssueResolution,
  condition_awaiting_approval, condition_failed,
}
use hal_agent_operator.Kube.{Job, Cluster}

-- ctrl.Result: when to reconcile again, in seconds; 0 is never.
pub record CtrlResult : Type 0 where
  pub requeue_after : ℕ

abbrev pub pending_approval_requeue : ℕ
pending_approval_requeue = 30

abbrev pub job_poll_requeue : ℕ
job_poll_requeue = 10

abbrev pub default_max_fix_attempts : ℤ
default_max_fix_attempts = pos 2

-- A handler's `ir` and `ctrl.Result` where its error is nil.
abbrev pub Reconciled : Type 0
Reconciled = IssueResolution × CtrlResult

abbrev pub requeue : IssueResolution → ℕ → Reconciled
requeue ir n = (ir, record { requeue_after = n })

-- `ir.Status.Phase = …`
abbrev pub set_phase : Phase → IssueResolution → IssueResolution
set_phase p ir = record ir { status = record ir.status { phase = p } }

-- `ir.Status.Message = …`
abbrev pub set_message : Text → IssueResolution → IssueResolution
set_message m ir = record ir { status = record ir.status { message = m } }

-- `*int32` with its fallback.
unfoldable pub max_attempts_of : Option ℤ → ℤ
max_attempts_of none = default_max_fix_attempts
max_attempts_of (some n) = n

-- The attempt that reconcileFix works on: 1 where the status has none yet.
unfoldable pub attempt_of : IssueResolution → ℤ
attempt_of ir =
    if eqb_ℤ ir.status.execution.attempt (pos 0) then pos 1 else ir.status.execution.attempt

-- `%s — …`, `(attempt %d/%d)`
abbrev pub of_attempts : ℤ → ℤ → Text
of_attempts attempt max_attempts =
    utf8 "(attempt " ++ (decimal attempt ++ (utf8 "/" ++ (decimal max_attempts ++ utf8 ")")))

abbrev pub kubectl_logs : Text → IssueResolution → Text
kubectl_logs job_name ir = utf8 "kubectl logs job/" ++ (job_name ++ (utf8 " -n " ++ ir.namespace))

-- `%v` of an error that may be nil.
abbrev pub print_error : Option Error → Text
print_error none = utf8 "<nil>"
print_error (some e) = error_text e

abbrev pub is_ready : Phase → Bool
is_ready ready = Bool.true
is_ready _ = Bool.false

abbrev pub is_pr_open : Phase → Bool
is_pr_open pr_open = Bool.true
is_pr_open _ = Bool.false

-- The end of a handler that creates a Job: the error of Create, or the changed object.
unfoldable pub after_create :
    {World : Type 0} → World × Option Error → Reconciled → World × Result Reconciled
after_create (w, some e) x = (w, err e)
after_create (w, none) x = (w, ok x)

module _ {World : Type 0} (c : Cluster World) where
  -- meta.SetStatusCondition on the object's conditions, at its generation.
  abbrev pub set_condition :
      Text → ConditionStatus → Text → Text → IssueResolution → IssueResolution
  set_condition kind status reason message ir = record ir {
    status = record ir.status {
      conditions = c.set_status_condition ir.status.conditions (record {
        kind = kind;
        status = status;
        reason = reason;
        message = message;
        observed_generation = ir.generation;
      });
    };
  }

  -- A Job that was built is created.
  unfoldable pub create_built : World → Result Job → Reconciled → World × Result Reconciled
  unfolding after_create
  create_built w (err e) x = (w, err e)
  create_built w (ok job) x = after_create (c.create_job w job) x

  unfoldable pub handle_fix_failure : IssueResolution → ℤ → ℤ → Text → Reconciled
  handle_fix_failure ir attempt max_attempts msg =
      if ltb_ℤ attempt max_attempts
      then (let next = add32 attempt (pos 1) in
          let execution = record ir.status.execution { attempt = next } in
          requeue
            (set_message (msg ++ (utf8 " — retrying " ++ of_attempts next max_attempts))
              (set_phase ready (record ir { status = record ir.status { execution = execution } })))
            1)
      else (let message =
            msg ++ (utf8 " — max attempts (" ++ (decimal max_attempts ++ utf8 ") exhausted")) in
          requeue
            (set_condition condition_failed condition_true (utf8 "FixAttemptsExhausted") message
              (set_message message (set_phase failed ir)))
            0)

  unfoldable pub reconcile_pending_validation : IssueResolution → Reconciled
  reconcile_pending_validation ir =
      if not ir.spec.approved
      then requeue (set_message (utf8 "Waiting for spec.approved=true (POC: kubectl patch …)") ir)
          pending_approval_requeue
      else (let message = utf8 "Approved — ready for fix Job" in
          requeue
            (set_condition condition_awaiting_approval condition_false (utf8 "Approved") message
              (set_message message (set_phase ready ir)))
            1)
