-- ===== src/Controller/Runs/Created.antt =====
-- The invariant rule for the Jobs that a run has created.
use hal_agent_operator.Base.{
  List, [], ◌∷◌, some, not_found, failure, Result, ok, err, ◌≡◌, refl, sym, ◌∙◌, ap, subst, All,
}
use hal_agent_operator.Api.{IssueResolution}
use hal_agent_operator.Kube.{Cluster, Job, ObjectKey}
use hal_agent_operator.Kube.Laws.{IsCluster, key_of}
use hal_agent_operator.Controller.Config.{Reconciler}
use hal_agent_operator.Controller.Results.{Json}
use hal_agent_operator.Controller.Handlers.{Reconciled}
use hal_agent_operator.Controller.Reconcile.{dispatch, observed, finish, reconcile_issue, reconcile}
use hal_agent_operator.Controller.Launches.{
  Launch, Effect, none_created, one_created, dispatch-Effect,
}
use hal_agent_operator.Controller.Runs.{
  world_of-after_patch, History, remember, Run, start, pass, outside,
}

module _ {World : Type 0} (c : Cluster World) (laws : IsCluster c) (j : Json) (r : Reconciler) where
  created-finish :
      (ir : IssueResolution) (m : World × Result Reconciled)
      → laws.created (finish c ir m).0 ≡ laws.created m.0
  unfolding finish
  created-finish ir (w, err e) = refl
  created-finish ir (w, ok (ir', res)) =
      ap laws.created (world_of-after_patch (c.patch_status w ir (observed ir')) res)
      ∙ laws.created-patch w ir (observed ir')

  -- A property of created Jobs that stays, and that a Job has which a pass over a stored object
  -- may create.
  pub record IsLicence (Q : History → Job → Type 0) : Type 0 where
    pub later : (h : History) (job : Job) (ir : IssueResolution) → Q h job → Q (ir ∷ h) job
    pub launched :
        {w : World} {h : History} (ir : IssueResolution) (job : Job)
        → Run c laws j r w h
        → laws.stored w (key_of ir) ≡ some ir
        → Launch r ir job
        → Q (ir ∷ h) job

  module _ (Q : History → Job → Type 0) (licence : IsLicence Q) where
    All-later :
        (h : History) (ir : IssueResolution) (jobs : List Job)
        → All (Q h) jobs
        → All (Q (ir ∷ h)) jobs
    All-later h ir [] a = tt
    All-later h ir (job ∷ jobs) (q, a) = (licence.later h job ir q, All-later h ir jobs a)

    Effect-created :
        (w w' : World) (h : History) (ir : IssueResolution)
        → Run c laws j r w h
        → laws.stored w (key_of ir) ≡ some ir
        → All (Q h) (laws.created w)
        → Effect c laws r ir w w'
        → All (Q (ir ∷ h)) (laws.created w')
    Effect-created w w' h ir run here a (none_created e _) =
        subst (All (Q (ir ∷ h))) (sym e) (All-later h ir _ a)
    Effect-created w w' h ir run here a (one_created job l e _) =
        subst (All (Q (ir ∷ h))) (sym e) (licence.launched ir job run here l, All-later h ir _ a)

    pass-created :
        (w : World) (h : History) (k : ObjectKey) (got : Result IssueResolution)
        → c.get_issue w k ≡ got
        → Run c laws j r w h
        → All (Q h) (laws.created w)
        → All (Q (remember got h)) (laws.created (reconcile_issue c j r w got).0)
    unfolding reconcile_issue
    pass-created w h k (err (not_found t)) e run a = a
    pass-created w h k (err (failure t)) e run a = a
    pass-created w h k (ok ir) e run a =
        let (here, key) = laws.get-stored w k ir e in
        subst (All (Q (ir ∷ h))) (sym (created-finish ir (dispatch c j r ir.status.phase w ir))) (
          Effect-created w _ h ir run (ap (laws.stored w) key ∙ here) a
            (dispatch-Effect c laws j r w ir ir.status.phase refl))

    pub created_induction :
        {w : World} {h : History} → Run c laws j r w h → All (Q h) (laws.created w)
    unfolding reconcile
    created_induction (start _ none_yet) = subst (All (Q [])) (sym none_yet) tt
    created_induction (pass {w} {h} k run) =
        pass-created w h k (c.get_issue w k) refl run (created_induction run)
    created_induction (outside {w} {w'} {h} run o) =
        subst (All (Q h)) (sym o.keeps_created) (created_induction run)
