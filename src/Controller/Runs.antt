-- ===== src/Controller/Runs.antt =====
-- Runs: passes of Reconcile over any objects, between which the rest of the world moves. A run
-- starts with no object and no Job, and keeps the objects that its passes read, newest first. A pass
-- is one step: reads in it are current, and nothing else moves until its patch is applied.
pub mod Induction
pub mod Created
use hal_agent_operator.Base.{
  List, [], ◌∷◌, Option, none, some, not_found, failure, Error, Result, ok, err, Result-cases,
  arith, ◌≡◌, refl, sym, ◌∙◌, ap, subst, ◌⊎◌, inl, inr, All,
}
use hal_agent_operator.Api.{IssueResolution, IssueResolutionStatus}
use hal_agent_operator.Kube.{Cluster, Job, ObjectKey}
use hal_agent_operator.Kube.Laws.{IsCluster, key_of, new_status}
use hal_agent_operator.Controller.Config.{Reconciler}
use hal_agent_operator.Controller.Results.{Json}
use hal_agent_operator.Controller.Handlers.{Reconciled, CtrlResult}
use hal_agent_operator.Controller.Handlers.{CtrlResult}
use hal_agent_operator.Controller.Reconcile.{
  after_patch, dispatch, observed, finish, reconcile_issue, reconcile, after_patch,
}
use hal_agent_operator.Controller.Diagram.{Step, Stepped, Ensures}
use hal_agent_operator.Controller.Passes.{dispatch-Step}
use hal_agent_operator.Controller.Launches.{
  Launch, Effect, none_created, one_created, dispatch-Effect,
}
use hal_agent_operator.Controller.Frame.{Kept, dispatch-Kept}

abbrev pub History : Type 0
History = List IssueResolution

-- The history after a pass whose read answered `got`.
abbrev pub remember : Result IssueResolution → History → History
remember (ok ir) h = ir ∷ h
remember (err e) h = h

pub world_of-after_patch :
    {World : Type 0} (p : World × Option Error) (res : CtrlResult) → (after_patch p res).0 ≡ p.0
unfolding after_patch
world_of-after_patch (w, some e) res = refl
world_of-after_patch (w, none) res = refl

module _ {World : Type 0} (c : Cluster World) (laws : IsCluster c) where
  -- What others may do between two passes: no one else writes a status or creates these Jobs, and
  -- an object that appears has an empty status. Specs, Jobs' progress and pods change freely.
  pub record IsOutside (w w' : World) : Type 0 where
    pub keeps_status :
        (k : ObjectKey) (x : IssueResolution)
        → laws.stored w' k ≡ some x
        → ((y : IssueResolution) × (laws.stored w k ≡ some y) × (x.status ≡ y.status))
          ⊎ (x.status ≡ new_status)
    pub keeps_created : laws.created w' ≡ laws.created w

  pub data Run (j : Json) (r : Reconciler) : World → History → Type 0 where
    start :
        {w : World}
        → ((k : ObjectKey) → laws.stored w k ≡ none)
        → laws.created w ≡ []
        → Run j r w []
    pass :
        {w : World} {h : History} (k : ObjectKey)
        → Run j r w h
        → Run j r (reconcile c j r w k).0 (remember (c.get_issue w k) h)
    outside : {w w' : World} {h : History} → Run j r w h → IsOutside w w' → Run j r w' h
