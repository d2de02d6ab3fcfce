-- ===== src/Controller/Launches.antt =====
-- What a pass of Reconcile does to the cluster before it stores the status: at most one Job is
-- created, the triage Job of an object in triage or the fix Job of the attempt.
use hal_agent_operator.Base.{
  true, not, ◌&&◌, is_empty, [], ◌∷◌, Error, Option, none, some, not_found, failure, Result, ok,
  err, if_intro, arith, ◌≡◌, refl, sym, ◌⊎◌, inl, inr, subst, ℤ,
}
use hal_agent_operator.Api.{
  Phase, unset, triage, pending_validation, ready, executing, pr_open, done, rejected, failed,
  unknown, IssueResolution,
}
use hal_agent_operator.Kube.{Cluster, Job, ObjectKey}
use hal_agent_operator.Kube.Laws.{IsCluster}
use hal_agent_operator.Controller.Config.{Reconciler}
use hal_agent_operator.Controller.Jobs.{
  fix_branch_name, triage_job_name, triage_env, triage_job, fix_job, build_triage_job,
  build_fix_job,
}
use hal_agent_operator.Controller.Results.{Json}
use hal_agent_operator.Controller.Handlers.{
  after_create, create_built, attempt_of, set_phase, is_ready, is_pr_open, Reconciled,
}
use hal_agent_operator.Controller.Triage.{reconcile_triage, triage_with_job, start_triage}
use hal_agent_operator.Controller.Fix.{reconcile_fix, fix_with_job, start_fix}
use hal_agent_operator.Controller.Reconcile.{dispatch}
use hal_agent_operator.Controller.Diagram.{is_triage, is_fix}

abbrev pub MayStart : IssueResolution → Type 0
MayStart ir = (ir.status.phase ≡ ready) ⊎ (ir.status.execution.job_name ≡ [])

-- The Jobs that a pass over `ir` may create.
pub data Launch (r : Reconciler) (ir : IssueResolution) (job : Job) : Type 0 where
  launch_triage :
      is_triage ir.status.phase ≡ true
      → job ≡ record (triage_job r ir) { owner = job.owner }
      → Launch r ir job
  launch_fix :
      is_fix ir.status.phase ≡ true
      → MayStart ir
      → job ≡ record (fix_job r ir (attempt_of ir) (fix_branch_name ir (attempt_of ir))) {
        owner = job.owner;
      }
      → Launch r ir job

world_of-after_create :
    {World : Type 0} (p : World × Option Error) (x : Reconciled) → (after_create p x).0 ≡ p.0
unfolding after_create
world_of-after_create (w, some e) x = refl
world_of-after_create (w, none) x = refl

module _ {World : Type 0} (c : Cluster World) (laws : IsCluster c) (r : Reconciler) where
  -- The change from the world `w` to `w'` in a pass over `ir`.
  pub data Effect (ir : IssueResolution) (w w' : World) : Type 0 where
    none_created :
        laws.created w' ≡ laws.created w
        → ((k : ObjectKey) → laws.stored w' k ≡ laws.stored w k)
        → Effect ir w w'
    one_created :
        (job : Job)
        → Launch r ir job
        → laws.created w' ≡ job ∷ laws.created w
        → ((k : ObjectKey) → laws.stored w' k ≡ laws.stored w k)
        → Effect ir w w'

  create-Effect :
      (w : World) (ir : IssueResolution) (job : Job)
      → Launch r ir job
      → Effect ir w (c.create_job w job).0
  create-Effect w ir job l = elim (laws.created-create w job) [
    | inl e ↦ none_created e (laws.stored-create w job)
    | inr e ↦ one_created job l e (laws.stored-create w job)
  ]

  same-Effect : (ir : IssueResolution) (w : World) → Effect ir w w
  same-Effect ir w = none_created refl (λ k. refl)

  -- A Job that was built for `ir0` is one that a pass over it may create.
  abbrev pub Builds : IssueResolution → Result Job → Type 0
  Builds ir0 (ok job) = Launch r ir0 job
  Builds ir0 (err e) = Unit

  create_built-Effect :
      (w : World) (ir0 : IssueResolution) (built : Result Job) (x : Reconciled)
      → Builds ir0 built
      → Effect ir0 w (create_built c w built x).0
  unfolding create_built
  create_built-Effect w ir0 (ok job) x l =
      subst (Effect ir0 w) (sym (world_of-after_create (c.create_job w job) x))
        (create-Effect w ir0 job l)
  create_built-Effect w ir0 (err e) x l = same-Effect ir0 w

  Builds-intro :
      (ir0 : IssueResolution) (built : Result Job)
      → ((job : Job) → built ≡ ok job → Launch r ir0 job)
      → Builds ir0 built
  Builds-intro ir0 (ok job) f = f job refl
  Builds-intro ir0 (err e) f = tt

  build_fix-Builds :
      (ir : IssueResolution)
      → is_fix ir.status.phase ≡ true
      → MayStart ir
      → Builds ir (build_fix_job c r ir (attempt_of ir) (fix_branch_name ir (attempt_of ir)))
  unfolding build_fix_job
  build_fix-Builds ir p m =
      Builds-intro ir _ (λ job e. launch_fix p m (laws.set_controller_reference_owner ir _ job e))

  -- The object that the switch hands to reconcileTriage has the names and the spec of `ir0`.
  build_triage-Builds :
      (ir0 : IssueResolution)
      → is_triage ir0.status.phase ≡ true
      → Builds ir0 (build_triage_job c r (set_phase triage ir0))
        × Builds ir0 (build_triage_job c r ir0)
  unfolding build_triage_job triage_job_name triage_env
  build_triage-Builds ir0 p = (
    Builds-intro ir0 _ (λ job e. launch_triage p (laws.set_controller_reference_owner _ _ job e)),
    Builds-intro ir0 _ (λ job e. launch_triage p (laws.set_controller_reference_owner ir0 _ job e)),
  )

module _ {World : Type 0} (c : Cluster World) (laws : IsCluster c) (j : Json) (r : Reconciler) where
  reconcile_triage-Effect :
      (w : World) (ir0 ir : IssueResolution)
      → Builds c laws r ir0 (build_triage_job c r ir)
      → Effect c laws r ir0 w (reconcile_triage c j r w ir).0
  unfolding reconcile_triage
  reconcile_triage-Effect w ir0 ir b = go _
    where
      go : (found : Result Job) → Effect c laws r ir0 w (triage_with_job c j r w ir found).0
      go (err (not_found t)) = unfold start_triage in create_built-Effect c laws r w ir0 _ _ b
      go (err (failure t)) = same-Effect c laws r ir0 w
      go (ok job) = same-Effect c laws r ir0 w

  fix_with_job-Effect :
      (w : World) (ir : IssueResolution) (max_attempts : ℤ) (found : Result Job)
      → is_fix ir.status.phase ≡ true
      → Effect c laws r ir w (fix_with_job c j r w ir (attempt_of ir) max_attempts found).0
  unfolding fix_with_job start_fix
  fix_with_job-Effect w ir m (err (not_found t)) p =
      if_intro (λ (x : World × Result Reconciled). Effect c laws r ir w x.0)
        (not (is_ready ir.status.phase) && not (is_empty ir.status.execution.job_name))
        (λ _. same-Effect c laws r ir w)
        (λ e. create_built-Effect c laws r w ir _ _ (build_fix-Builds c laws r ir p (ground arith)))
  fix_with_job-Effect w ir m (err (failure t)) p = same-Effect c laws r ir w
  fix_with_job-Effect w ir m (ok job) p = same-Effect c laws r ir w

  reconcile_fix-Effect :
      (w : World) (ir : IssueResolution)
      → is_fix ir.status.phase ≡ true
      → Effect c laws r ir w (reconcile_fix c j r w ir).0
  unfolding reconcile_fix
  reconcile_fix-Effect w ir p =
      if_intro (λ (x : World × Result Reconciled). Effect c laws r ir w x.0)
        (is_pr_open ir.status.phase) (λ _. same-Effect c laws r ir w)
        (λ _. fix_with_job-Effect w ir _ _ p)

  -- A pass over an object creates no Job, or the one that its phase calls for.
  pub dispatch-Effect :
      (w : World) (ir : IssueResolution) (p : Phase)
      → ir.status.phase ≡ p
      → Effect c laws r ir w (dispatch c j r p w ir).0
  unfolding dispatch reconcile_fix
  dispatch-Effect w ir unset e =
      reconcile_triage-Effect w ir (set_phase triage ir)
        (build_triage-Builds c laws r ir (ground arith)).0
  dispatch-Effect w ir triage e =
      reconcile_triage-Effect w ir ir (build_triage-Builds c laws r ir (ground arith)).1
  dispatch-Effect w ir pending_validation e = same-Effect c laws r ir w
  dispatch-Effect w ir ready e = reconcile_fix-Effect w ir (ground arith)
  dispatch-Effect w ir executing e = reconcile_fix-Effect w ir (ground arith)
  dispatch-Effect w ir pr_open e =
      if_intro (λ (x : World × Result Reconciled). Effect c laws r ir w x.0)
        (is_pr_open ir.status.phase) (λ _. same-Effect c laws r ir w) (λ n. ground arith)
  dispatch-Effect w ir done e = same-Effect c laws r ir w
  dispatch-Effect w ir rejected e = same-Effect c laws r ir w
  dispatch-Effect w ir failed e = same-Effect c laws r ir w
  dispatch-Effect w ir (unknown t) e = same-Effect c laws r ir w
