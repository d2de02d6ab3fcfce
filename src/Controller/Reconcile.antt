-- ===== src/Controller/Reconcile.antt =====
-- Reconcile: read the object, dispatch on its phase, store the status.
use hal_agent_operator.Base.{Option, Error, none, some, not_found, failure, Result, ok, err}
use hal_agent_operator.Api.{
  Phase, unset, triage, pending_validation, ready, executing, pr_open, done, rejected, failed,
  unknown, IssueResolution,
}
use hal_agent_operator.Kube.{ObjectKey, Cluster}
use hal_agent_operator.Controller.Config.{Reconciler}
use hal_agent_operator.Controller.Results.{Json}
use hal_agent_operator.Controller.Handlers.{
  CtrlResult, Reconciled, requeue, set_phase, reconcile_pending_validation,
}
use hal_agent_operator.Controller.Triage.{reconcile_triage}
use hal_agent_operator.Controller.Fix.{reconcile_fix}

-- What Reconcile does with the object after the switch.
abbrev pub observed : IssueResolution → IssueResolution
observed ir = record ir { status = record ir.status { observed_generation = ir.generation } }

-- The end of Reconcile: the error of the status patch, or the result.
unfoldable pub after_patch :
    {World : Type 0} → World × Option Error → CtrlResult → World × Result CtrlResult
after_patch (w, some e) result = (w, err e)
after_patch (w, none) result = (w, ok result)

module _ {World : Type 0} (c : Cluster World) where
  -- The end of Reconcile: store the changed status.
  unfoldable pub finish : IssueResolution → World × Result Reconciled → World × Result CtrlResult
  unfolding after_patch
  finish orig (w, err e) = (w, err e)
  finish orig (w, ok (ir, result)) = after_patch (c.patch_status w orig (observed ir)) result

module _ {World : Type 0} (c : Cluster World) (j : Json) (r : Reconciler) where
  -- The switch of Reconcile on the phase.
  unfoldable pub dispatch : Phase → World → IssueResolution → World × Result Reconciled
  unfolding reconcile_triage reconcile_fix reconcile_pending_validation
  dispatch unset w ir = reconcile_triage c j r w (set_phase triage ir)
  dispatch triage w ir = reconcile_triage c j r w ir
  dispatch pending_validation w ir = (w, ok (reconcile_pending_validation c ir))
  dispatch ready w ir = reconcile_fix c j r w ir
  dispatch executing w ir = reconcile_fix c j r w ir
  dispatch pr_open w ir = reconcile_fix c j r w ir
  dispatch done w ir = (w, ok (requeue ir 0))
  dispatch rejected w ir = (w, ok (requeue ir 0))
  dispatch failed w ir = (w, ok (requeue ir 0))
  dispatch (unknown p) w ir = (w, ok (requeue (set_phase triage ir) 1))

  unfoldable pub reconcile_issue : World → Result IssueResolution → World × Result CtrlResult
  unfolding dispatch finish
  reconcile_issue w (err (not_found t)) = (w, ok (record { requeue_after = 0 }))
  reconcile_issue w (err (failure t)) = (w, err (failure t))
  reconcile_issue w (ok ir) = finish c ir (dispatch ir.status.phase w ir)

  unfoldable pub reconcile : World → ObjectKey → World × Result CtrlResult
  unfolding reconcile_issue
  reconcile w req = reconcile_issue w (c.get_issue w req)
