-- ===== src/Controller/Diagram.antt =====
-- The phase diagram of docs/operator-architecture.md, section 4, with the reason for each step and
-- what it writes.
use hal_agent_operator.Base.{
  Text, ℤ, pos, add32, ◌<ℤ◌, ◌≤ℤ◌, Bool, true, false, Result, ok, err, arith, ◌≡◌, ◌≢◌, refl, ◌⊎◌,
  [],
}
use hal_agent_operator.Api.{
  Phase, unset, triage, pending_validation, ready, executing, pr_open, done, rejected, failed,
  unknown, IssueResolution, IssueResolutionStatus,
}
use hal_agent_operator.Controller.Jobs.{fix_job_name, fix_branch_name}
use hal_agent_operator.Controller.Handlers.{
  Reconciled, CtrlResult, set_phase, attempt_of, max_attempts_of,
}

abbrev pub is_terminal : Phase → Bool
is_terminal pr_open = true
is_terminal done = true
is_terminal rejected = true
is_terminal failed = true
is_terminal _ = false

abbrev pub is_triage : Phase → Bool
is_triage unset = true
is_triage triage = true
is_triage _ = false

abbrev pub is_fix : Phase → Bool
is_fix ready = true
is_fix executing = true
is_fix _ = false

abbrev pub max_of : IssueResolution → ℤ
max_of ir = max_attempts_of ir.spec.max_fix_attempts

-- One step of the object `ir` to the status `s`.
pub data Step (ir : IssueResolution) (s : IssueResolutionStatus) : Type 0 where
  -- The triage Job is created or runs.
  triaging :
      is_triage ir.status.phase ≡ true
      → s.phase ≡ triage
      → s.triage ≡ ir.status.triage
      → s.execution ≡ ir.status.execution
      → Step ir s
  -- The triage accepted the issue.
  vetted :
      is_triage ir.status.phase ≡ true
      → s.phase ≡ pending_validation
      → s.triage.in_scope ≡ true
      → s.triage.suspicious ≡ false
      → s.triage.parse_error ≡ false
      → s.execution ≡ ir.status.execution
      → Step ir s
  -- The triage read the issue and refused it.
  refused :
      is_triage ir.status.phase ≡ true
      → s.phase ≡ rejected
      → (s.triage.in_scope ≡ false) ⊎ (s.triage.suspicious ≡ true)
      → s.execution ≡ ir.status.execution
      → Step ir s
  -- The triage Job failed, or its report cannot be used.
  triage_failed :
      is_triage ir.status.phase ≡ true
      → s.phase ≡ failed
      → s.execution ≡ ir.status.execution
      → Step ir s
  -- The human has not approved.
  waiting :
      ir.status.phase ≡ pending_validation
      → ir.spec.approved ≡ false
      → s.phase ≡ pending_validation
      → s.triage ≡ ir.status.triage
      → s.execution ≡ ir.status.execution
      → Step ir s
  approved :
      ir.status.phase ≡ pending_validation
      → ir.spec.approved ≡ true
      → s.phase ≡ ready
      → s.triage ≡ ir.status.triage
      → s.execution ≡ ir.status.execution
      → Step ir s
  -- The fix Job of the attempt was created.
  launched :
      is_fix ir.status.phase ≡ true
      → s.phase ≡ executing
      → s.triage ≡ ir.status.triage
      → s.execution.attempt ≡ attempt_of ir
      → s.execution.job_name ≡ fix_job_name ir (attempt_of ir)
      → s.execution.branch ≡ fix_branch_name ir (attempt_of ir)
      → Step ir s
  -- The fix Job of the attempt runs.
  running :
      is_fix ir.status.phase ≡ true
      → s.phase ≡ executing
      → s.triage ≡ ir.status.triage
      → s.execution ≡ ir.status.execution
      → Step ir s
  -- The attempt failed and another is allowed.
  retried :
      is_fix ir.status.phase ≡ true
      → attempt_of ir <ℤ max_of ir
      → s.phase ≡ ready
      → s.triage ≡ ir.status.triage
      → s.execution.attempt ≡ add32 (attempt_of ir) (pos 1)
      → Step ir s
  -- The last attempt failed.
  exhausted :
      is_fix ir.status.phase ≡ true
      → max_of ir ≤ℤ attempt_of ir
      → s.phase ≡ failed
      → s.triage ≡ ir.status.triage
      → s.execution ≡ ir.status.execution
      → Step ir s
  -- The attempt opened a pull request.
  opened :
      is_fix ir.status.phase ≡ true
      → s.phase ≡ pr_open
      → s.triage ≡ ir.status.triage
      → s.execution.attempt ≡ attempt_of ir
      → s.execution.pr_url ≢ []
      → Step ir s
  -- A terminal phase, or a fix Job that is gone after it ran: nothing is written.
  rested :
      (is_terminal ir.status.phase ≡ true)
        ⊎ ((ir.status.phase ≡ executing) × (ir.status.execution.job_name ≢ []))
      → s ≡ ir.status
      → Step ir s
  reset :
      {p : Text}
      → ir.status.phase ≡ unknown p
      → s.phase ≡ triage
      → s.triage ≡ ir.status.triage
      → s.execution ≡ ir.status.execution
      → Step ir s

-- What holds of the object where a handler returns no error.
abbrev pub Ensures :
    {World : Type 0} → (IssueResolution → Type 0) → World × Result Reconciled → Type 0
Ensures P (w, ok (ir, res)) = P ir
Ensures P (w, err e) = Unit

-- To prove it from the equation of a return with no error.
pub ensure :
    {World : Type 0} (P : IssueResolution → Type 0) (m : World × Result Reconciled)
    → ((w : World) (ir : IssueResolution) (res : CtrlResult) → m ≡ (w, ok (ir, res)) → P ir)
    → Ensures P m
ensure P (w, ok (ir, res)) f = f w ir res refl
ensure P (w, err e) f = tt

pub Ensures-map :
    {World : Type 0} {P Q : IssueResolution → Type 0} (m : World × Result Reconciled)
    → ((ir : IssueResolution) → P ir → Q ir)
    → Ensures P m
    → Ensures Q m
Ensures-map (w, ok (ir, res)) f h = f ir h
Ensures-map (w, err e) f h = h

-- The object of a pass over `ir` has made a step.
abbrev pub Stepped : IssueResolution → IssueResolution → Type 0
Stepped ir ir' = Step ir ir'.status

abbrev pub SteppedTo : IssueResolution → Reconciled → Type 0
SteppedTo ir x = Step ir x.0.status

-- A step of the object as the switch hands it to reconcileTriage is one of the object itself.
pub Step-unset :
    (ir : IssueResolution) (s : IssueResolutionStatus)
    → ir.status.phase ≡ unset
    → Step (set_phase triage ir) s
    → Step ir s
Step-unset ir s p (triaging _ a b e) = triaging (ground arith) a b e
Step-unset ir s p (vetted _ a b d e f) = vetted (ground arith) a b d e f
Step-unset ir s p (refused _ a b e) = refused (ground arith) a b e
Step-unset ir s p (triage_failed _ a e) = triage_failed (ground arith) a e
Step-unset ir s p (waiting q _ _ _ _) = cc
Step-unset ir s p (approved q _ _ _ _) = cc
Step-unset ir s p (launched q _ _ _ _ _) = cc
Step-unset ir s p (running q _ _ _) = cc
Step-unset ir s p (retried q _ _ _ _) = cc
Step-unset ir s p (exhausted q _ _ _ _) = cc
Step-unset ir s p (opened q _ _ _ _) = cc
Step-unset ir s p (rested q _) = ground arith
Step-unset ir s p (reset q _ _ _) = cc
