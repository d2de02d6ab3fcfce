-- ===== src/Controller/Passes.antt =====
-- Every pass of Reconcile that returns no error makes a step of the diagram.
use hal_agent_operator.Base.{
  Text, pos, true, Result, ok, err, not_found, failure, not, ◌&&◌, is_empty, if_intro, subst, inl,
  ltb_ℤ, arith, ◌≡◌, ◌≢◌, refl, [],
}
use hal_agent_operator.Api.{
  Phase, unset, triage, pending_validation, ready, executing, pr_open, done, rejected, failed,
  unknown, IssueResolution,
}
use hal_agent_operator.Kube.{Cluster, Job}
use hal_agent_operator.Controller.Config.{Reconciler}
use hal_agent_operator.Controller.Results.{Json, FixJobResult}
use hal_agent_operator.Controller.Handlers.{
  create_built, CtrlResult, set_phase, is_ready, is_pr_open, attempt_of, handle_fix_failure,
  reconcile_pending_validation,
}
use hal_agent_operator.Controller.Triage.{reconcile_triage}
use hal_agent_operator.Controller.Fix.{
  reconcile_fix, accept_fix, fix_succeeded, observe_fix, start_fix, fix_with_job,
}
use hal_agent_operator.Controller.Reconcile.{dispatch}
use hal_agent_operator.Controller.Diagram.{
  is_fix, max_of, Step, triaging, vetted, refused, triage_failed, waiting, approved, launched,
  running, retried, exhausted, opened, rested, reset, Ensures, ensure, Ensures-map, Stepped,
  SteppedTo, Step-unset,
}

ruleset triage_steps = (triaging, vetted, refused, triage_failed)

module _ {World : Type 0} (c : Cluster World) (j : Json) (r : Reconciler) where
  reconcile_triage-Step :
      (w : World) (ir : IssueResolution)
      → ir.status.phase ≡ triage
      → Ensures (Stepped ir) (reconcile_triage c j r w ir)
  unfolding reconcile_triage create_built
  reconcile_triage-Step w ir p =
      ensure (Stepped ir) (reconcile_triage c j r w ir)
        (λ w' ir' res h. grind (arith, triage_steps))

  pending-Step :
      (ir : IssueResolution)
      → ir.status.phase ≡ pending_validation
      → SteppedTo ir (reconcile_pending_validation c ir)
  unfolding reconcile_pending_validation
  pending-Step ir p = grind (arith, waiting, approved)

  handle_fix_failure-Step :
      (ir : IssueResolution) (msg : Text)
      → is_fix ir.status.phase ≡ true
      → SteppedTo ir (handle_fix_failure c ir (attempt_of ir) (max_of ir) msg)
  unfolding handle_fix_failure
  handle_fix_failure-Step ir msg p = grind (arith, retried, exhausted)

  accept_fix-Step :
      (ir : IssueResolution) (fr : FixJobResult)
      → is_fix ir.status.phase ≡ true
      → fr.pr_url ≢ []
      → SteppedTo ir (accept_fix c j r ir (attempt_of ir) fr)
  unfolding accept_fix
  accept_fix-Step ir fr p n = opened p refl refl refl n

  fix_succeeded-Step :
      (ir : IssueResolution) (report : Result FixJobResult)
      → is_fix ir.status.phase ≡ true
      → SteppedTo ir (fix_succeeded c j r ir (attempt_of ir) (max_of ir) report)
  unfolding fix_succeeded
  fix_succeeded-Step ir (err e) p = handle_fix_failure-Step ir _ p
  fix_succeeded-Step ir (ok fr) p =
      if_intro (SteppedTo ir) (is_empty fr.pr_url) (λ _. handle_fix_failure-Step ir _ p)
        (λ n. accept_fix-Step ir fr p (λ e. ground arith))

  observe_fix-Step :
      (w : World) (ir : IssueResolution) (job : Job)
      → is_fix ir.status.phase ≡ true
      → SteppedTo ir (observe_fix c j r w ir (attempt_of ir) (max_of ir) job)
  unfolding observe_fix
  observe_fix-Step w ir job p =
      if_intro (SteppedTo ir) (ltb_ℤ (pos 0) job.succeeded) (λ _. fix_succeeded-Step ir _ p)
        (λ _.
          if_intro (SteppedTo ir) (ltb_ℤ (pos 0) job.failed) (λ _. handle_fix_failure-Step ir _ p)
            (λ _. running p refl refl refl))

  start_fix-Step :
      (w : World) (ir : IssueResolution)
      → is_fix ir.status.phase ≡ true
      → Ensures (Stepped ir) (start_fix c j r w ir (attempt_of ir) (max_of ir))
  unfolding start_fix create_built
  start_fix-Step w ir p =
      ensure (Stepped ir) (start_fix c j r w ir (attempt_of ir) (max_of ir))
        (λ w' ir' res h. grind (arith, launched))

  fix_with_job-Step :
      (w : World) (ir : IssueResolution) (found : Result Job)
      → is_fix ir.status.phase ≡ true
      → Ensures (Stepped ir) (fix_with_job c j r w ir (attempt_of ir) (max_of ir) found)
  unfolding fix_with_job
  fix_with_job-Step w ir (err (not_found t)) p =
      if_intro (Ensures (Stepped ir))
        (not (is_ready ir.status.phase) && not (is_empty ir.status.execution.job_name))
        (λ e. grind (arith, rested)) (λ _. start_fix-Step w ir p)
  fix_with_job-Step w ir (err (failure t)) p = tt
  fix_with_job-Step w ir (ok job) p = observe_fix-Step w ir job p

  reconcile_fix-Step :
      (w : World) (ir : IssueResolution)
      → is_fix ir.status.phase ≡ true
      → Ensures (Stepped ir) (reconcile_fix c j r w ir)
  unfolding reconcile_fix
  reconcile_fix-Step w ir p =
      if_intro (Ensures (Stepped ir)) (is_pr_open ir.status.phase) (λ o. ground arith)
        (λ _. fix_with_job-Step w ir _ p)

  pub dispatch-Step :
      (w : World) (ir : IssueResolution) (p : Phase)
      → ir.status.phase ≡ p
      → Ensures (Stepped ir) (dispatch c j r p w ir)
  unfolding dispatch
  dispatch-Step w ir unset e =
      Ensures-map (reconcile_triage c j r w (set_phase triage ir))
        (λ ir' st. Step-unset ir ir'.status e st)
        (reconcile_triage-Step w (set_phase triage ir) refl)
  dispatch-Step w ir triage e = reconcile_triage-Step w ir e
  dispatch-Step w ir pending_validation e = pending-Step ir e
  dispatch-Step w ir ready e = reconcile_fix-Step w ir (ground arith)
  dispatch-Step w ir executing e = reconcile_fix-Step w ir (ground arith)
  dispatch-Step w ir pr_open e = unfold reconcile_fix in grind (arith, rested)
  dispatch-Step w ir done e = rested (inl (ground arith)) refl
  dispatch-Step w ir rejected e = rested (inl (ground arith)) refl
  dispatch-Step w ir failed e = rested (inl (ground arith)) refl
  dispatch-Step w ir (unknown t) e = reset e refl refl refl

-- Whatever the cluster answers, a pass that returns no error moves the object by a step of the
-- diagram: the phases, the guards and what each step writes are those of the constructors of Step.
pub pass-Step :
    {World : Type 0} (c : Cluster World) (j : Json) (r : Reconciler) (w w' : World)
    (ir ir' : IssueResolution) (res : CtrlResult)
    → dispatch c j r ir.status.phase w ir ≡ (w', ok (ir', res))
    → Step ir ir'.status
pass-Step c j r w w' ir ir' res h =
    subst (Ensures (Stepped ir)) h (dispatch-Step c j r w ir ir.status.phase refl)
