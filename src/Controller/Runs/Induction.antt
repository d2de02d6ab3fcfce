-- ===== src/Controller/Runs/Induction.antt =====
-- The invariant rule for runs: what new statuses have and every step of the diagram keeps holds of
-- every stored object.
use hal_agent_operator.Base.{
  ◌∷◌, some, not_found, failure, Result, ok, err, arith, ◌≡◌, refl, sym, ◌∙◌, ap, subst, inl, inr,
}
use hal_agent_operator.Api.{IssueResolution, IssueResolutionStatus}
use hal_agent_operator.Kube.{Cluster, ObjectKey}
use hal_agent_operator.Kube.Laws.{IsCluster, key_of, new_status}
use hal_agent_operator.Controller.Config.{Reconciler}
use hal_agent_operator.Controller.Results.{Json}
use hal_agent_operator.Controller.Handlers.{Reconciled}
use hal_agent_operator.Controller.Reconcile.{dispatch, observed, finish, reconcile_issue, reconcile}
use hal_agent_operator.Controller.Diagram.{Step, Stepped, Ensures}
use hal_agent_operator.Controller.Passes.{dispatch-Step}
use hal_agent_operator.Controller.Launches.{Effect, none_created, one_created, dispatch-Effect}
use hal_agent_operator.Controller.Frame.{Kept, dispatch-Kept}
use hal_agent_operator.Controller.Runs.{
  world_of-after_patch, History, remember, IsOutside, Run, start, pass, outside,
}

module _ {World : Type 0} (c : Cluster World) (laws : IsCluster c) (j : Json) (r : Reconciler) where
  -- What is stored after a pass over `ir`: what was stored before, or its next status.
  data Written (ir : IssueResolution) (w : World) (k : ObjectKey) (x : IssueResolution)
      : Type 0 where
    untouched : laws.stored w k ≡ some x → Written ir w k x
    written :
        (ir' : IssueResolution)
        → Step ir ir'.status
        → k ≡ key_of ir
        → x.status ≡ record ir'.status { observed_generation = ir.generation }
        → Written ir w k x

  finish-Written :
      (w : World) (ir : IssueResolution) (m : World × Result Reconciled)
      → Ensures (Stepped ir) m
      → Ensures (Kept ir) m
      → laws.stored w (key_of ir) ≡ some ir
      → ((k : ObjectKey) → laws.stored m.0 k ≡ laws.stored w k)
      → (k : ObjectKey) (x : IssueResolution) → laws.stored (finish c ir m).0 k ≡ some x
      → Written ir w k x
  unfolding finish
  finish-Written w ir (w', err e) st kept here same k x s = untouched (sym (same k) ∙ s)
  finish-Written w ir (w', ok (ir', res)) st kept here same k x s =
      let at_key : key_of ir' ≡ key_of ir = ground arith in
      let current : (y : IssueResolution)
          → laws.stored w' (key_of ir') ≡ some y
          → y.status ≡ ir.status =
        λ y e. cc (same (key_of ir'), ap (laws.stored w) at_key) in
      elim (laws.stored-patch w' ir (observed ir') k x current
        (rw (world_of-after_patch (c.patch_status w' ir (observed ir')) res) at s)) [
          | inl old ↦ untouched (sym (same k) ∙ old)
          | inr (key, new) ↦
              written ir' st (ground arith)
                (new ∙ ap (λ g. record ir'.status { observed_generation = g }) kept.2)
        ]

  Effect-stored :
      (ir : IssueResolution) (w w' : World)
      → Effect c laws r ir w w'
      → (k : ObjectKey) → laws.stored w' k ≡ laws.stored w k
  Effect-stored ir w w' (none_created _ f) = f
  Effect-stored ir w w' (one_created _ _ _ f) = f

  reconcile-Written :
      (w : World) (ir : IssueResolution)
      → laws.stored w (key_of ir) ≡ some ir
      → (k : ObjectKey) (x : IssueResolution)
      → laws.stored (reconcile_issue c j r w (ok ir)).0 k ≡ some x
      → Written ir w k x
  unfolding reconcile_issue
  reconcile-Written w ir here =
      finish-Written w ir (dispatch c j r ir.status.phase w ir)
        (dispatch-Step c j r w ir ir.status.phase refl) (dispatch-Kept c j r w ir ir.status.phase)
        here (Effect-stored ir w _ (dispatch-Effect c laws j r w ir ir.status.phase refl))

  -- A property of stored statuses that new ones have and that every step keeps.
  pub record IsKept (P : History → ObjectKey → IssueResolutionStatus → Type 0) : Type 0 where
    pub fresh : (h : History) (k : ObjectKey) → P h k new_status
    pub later :
        (h : History) (k : ObjectKey) (s : IssueResolutionStatus) (ir : IssueResolution)
        → P h k s
        → P (ir ∷ h) k s
    pub step :
        (h : History) (ir : IssueResolution) (s : IssueResolutionStatus)
        → P h (key_of ir) ir.status
        → Step ir s
        → P (ir ∷ h) (key_of ir) (record s { observed_generation = ir.generation })

  module _ (P : History → ObjectKey → IssueResolutionStatus → Type 0) (keeps : IsKept P) where
    -- It holds of every stored object.
    abbrev Holds : World → History → Type 0
    Holds w h = (k : ObjectKey) (x : IssueResolution) → laws.stored w k ≡ some x → P h k x.status

    Written-keeps :
        (w : World) (h : History) (ir : IssueResolution)
        → Holds w h
        → P h (key_of ir) ir.status
        → (k : ObjectKey) (x : IssueResolution) → Written ir w k x
        → P (ir ∷ h) k x.status
    Written-keeps w h ir inv now k x (untouched s) = keeps.later h k x.status ir (inv k x s)
    Written-keeps w h ir inv now k x (written ir' st e n) =
        subst (λ k. P (ir ∷ h) k x.status) (sym e)
          (subst (λ s. P (ir ∷ h) (key_of ir) s) (sym n) (keeps.step h ir ir'.status now st))

    pass-Holds :
        (w : World) (h : History) (k' : ObjectKey) (got : Result IssueResolution)
        → c.get_issue w k' ≡ got
        → Holds w h
        → Holds (reconcile_issue c j r w got).0 (remember got h)
    unfolding reconcile_issue
    pass-Holds w h k' (err (not_found t)) e inv k x s = inv k x s
    pass-Holds w h k' (err (failure t)) e inv k x s = inv k x s
    pass-Holds w h k' (ok ir) e inv k x s =
        let (here, key) = laws.get-stored w k' ir e in
        Written-keeps w h ir inv (subst (λ k. P h k ir.status) (sym key) (inv k' ir here)) k x
          (reconcile-Written w ir (subst (λ k. laws.stored w k ≡ some ir) (sym key) here) k x s)

    outside-Holds : (w w' : World) (h : History) → IsOutside c laws w w' → Holds w h → Holds w' h
    outside-Holds w w' h o inv k x s = elim (o.keeps_status k x s) [
      | inl (y, old, same) ↦ subst (P h k) (sym same) (inv k y old)
      | inr new ↦ subst (P h k) (sym new) (keeps.fresh h k)
    ]

    pub run_induction :
        {w : World} {h : History}
        → Run c laws j r w h
        → (k : ObjectKey) (x : IssueResolution) → laws.stored w k ≡ some x
        → P h k x.status
    unfolding reconcile
    run_induction (start none_stored _) k x s = cc (none_stored k)
    run_induction (pass {w} {h} k' run) k x s =
        pass-Holds w h k' (c.get_issue w k') refl (run_induction run) k x s
    run_induction (outside {w} {w'} {h} run o) k x s =
        outside-Holds w w' h o (run_induction run) k x s
