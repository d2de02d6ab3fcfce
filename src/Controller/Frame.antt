-- ===== src/Controller/Frame.antt =====
-- A pass of Reconcile changes nothing of the object but its status.
use hal_agent_operator.Base.{Result, ok, err, if_intro, arith, ◌≡◌, refl, ℤ}
use hal_agent_operator.Api.{
  Phase, unset, triage, pending_validation, ready, executing, pr_open, IssueResolution,
}
use hal_agent_operator.Kube.{Cluster, Job}
use hal_agent_operator.Controller.Config.{Reconciler}
use hal_agent_operator.Controller.Results.{Json}
use hal_agent_operator.Controller.Handlers.{
  create_built, handle_fix_failure, reconcile_pending_validation, set_phase, is_pr_open,
}
use hal_agent_operator.Controller.Triage.{reconcile_triage}
use hal_agent_operator.Controller.Fix.{
  reconcile_fix, observe_fix, start_fix, fix_with_job, fix_succeeded, accept_fix,
}
use hal_agent_operator.Controller.Reconcile.{dispatch}
use hal_agent_operator.Controller.Diagram.{Ensures, ensure}

abbrev pub Kept : IssueResolution → IssueResolution → Type 0
Kept ir ir' =
    (ir'.name ≡ ir.name)
    × (ir'.namespace ≡ ir.namespace)
    × (ir'.generation ≡ ir.generation)
    × (ir'.spec ≡ ir.spec)

module _ {World : Type 0} (c : Cluster World) (j : Json) (r : Reconciler) where
  reconcile_triage-Kept :
      (w : World) (ir : IssueResolution) → Ensures (Kept ir) (reconcile_triage c j r w ir)
  unfolding reconcile_triage create_built
  reconcile_triage-Kept w ir =
      ensure (Kept ir) (reconcile_triage c j r w ir) (λ w' ir' res h. ground arith)

  observe_fix-Kept :
      (w : World) (ir : IssueResolution) (a m : ℤ) (job : Job)
      → Kept ir (observe_fix c j r w ir a m job).0
  unfolding observe_fix fix_succeeded accept_fix handle_fix_failure
  observe_fix-Kept w ir a m job = ground arith

  fix_with_job-Kept :
      (w : World) (ir : IssueResolution) (a m : ℤ) (found : Result Job)
      → Ensures (Kept ir) (fix_with_job c j r w ir a m found)
  unfolding fix_with_job start_fix create_built
  fix_with_job-Kept w ir a m (err e) =
      ensure (Kept ir) (fix_with_job c j r w ir a m (err e)) (λ w' ir' res h. ground arith)
  fix_with_job-Kept w ir a m (ok job) = observe_fix-Kept w ir a m job

  reconcile_fix-Kept :
      (w : World) (ir : IssueResolution) → Ensures (Kept ir) (reconcile_fix c j r w ir)
  unfolding reconcile_fix
  reconcile_fix-Kept w ir =
      if_intro (Ensures (Kept ir)) (is_pr_open ir.status.phase) (λ _. (refl, refl, refl, refl))
        (λ _. fix_with_job-Kept w ir _ _ _)

  pending-Kept : (ir : IssueResolution) → Kept ir (reconcile_pending_validation c ir).0
  unfolding reconcile_pending_validation
  pending-Kept ir = ground arith

  pub dispatch-Kept :
      (w : World) (ir : IssueResolution) (p : Phase) → Ensures (Kept ir) (dispatch c j r p w ir)
  unfolding dispatch
  dispatch-Kept w ir unset = reconcile_triage-Kept w (set_phase triage ir)
  dispatch-Kept w ir triage = reconcile_triage-Kept w ir
  dispatch-Kept w ir pending_validation = pending-Kept ir
  dispatch-Kept w ir ready = reconcile_fix-Kept w ir
  dispatch-Kept w ir executing = reconcile_fix-Kept w ir
  dispatch-Kept w ir pr_open = reconcile_fix-Kept w ir
  dispatch-Kept w ir _ = (refl, refl, refl, refl)
