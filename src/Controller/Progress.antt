-- ===== src/Controller/Progress.antt =====
-- After each pass the object is looked at again, as long as there is something left to do.
use hal_agent_operator.Base.{
  ℤ, if_intro, Text, pos, true, false, Bool, Result, ok, err, not_found, failure, not, ◌&&◌, ◌||◌,
  is_empty, ltb, inl, inr, ◌⊎◌, ◌<◌, Bool-cases, ltb_ℤ, arith, ◌≡◌, subst, refl,
}
use hal_agent_operator.Api.{
  Phase, unset, triage, pending_validation, ready, executing, pr_open, done, rejected, failed,
  unknown, IssueResolution,
}
use hal_agent_operator.Kube.{Cluster, Job}
use hal_agent_operator.Controller.Config.{Reconciler}
use hal_agent_operator.Controller.Jobs.{fix_job_name}
use hal_agent_operator.Controller.Results.{Json, FixJobResult}
use hal_agent_operator.Controller.Handlers.{
  create_built, CtrlResult, Reconciled, set_phase, is_ready, is_pr_open, attempt_of,
  max_attempts_of, handle_fix_failure, reconcile_pending_validation,
}
use hal_agent_operator.Controller.Triage.{reconcile_triage}
use hal_agent_operator.Controller.Fix.{
  reconcile_fix, accept_fix, fix_succeeded, observe_fix, start_fix, fix_with_job,
}
use hal_agent_operator.Controller.Reconcile.{dispatch}

-- The phases in which the operator has done its part.
abbrev pub is_final : Phase → Bool
is_final pr_open = true
is_final done = true
is_final rejected = true
is_final failed = true
is_final _ = false

abbrev goes_on : Reconciled → Bool
goes_on x = ltb 0 x.1.requeue_after || is_final x.0.status.phase

-- What holds of the outcome of a pass that returns no error.
abbrev Of : {World : Type 0} → (Reconciled → Type 0) → World × Result Reconciled → Type 0
Of P (w, err e) = Unit
Of P (w, ok x) = P x

abbrev GoesOn : Reconciled → Type 0
GoesOn x = goes_on x ≡ true

pr_open_final : (p : Phase) → is_pr_open p ≡ true → (ltb 0 0 || is_final p) ≡ true
pr_open_final p h = ground arith

module _ {World : Type 0} (c : Cluster World) (j : Json) (r : Reconciler) where
  each :
      (P : Reconciled → Type 0) (x : World × Result Reconciled)
      → ((w' : World) (ir : IssueResolution) (res : CtrlResult)
          → x ≡ (w', ok (ir, res))
          → P (ir, res))
      → Of P x
  each P (w, err e) h = tt
  each P (w, ok (ir, res)) h = h w ir res refl

  reconcile_triage-GoesOn :
      (w : World) (ir : IssueResolution) → Of GoesOn (reconcile_triage c j r w ir)
  unfolding reconcile_triage create_built
  reconcile_triage-GoesOn w ir =
      each GoesOn (reconcile_triage c j r w ir) (λ w' ir' res h. ground arith)

  pending-GoesOn : (ir : IssueResolution) → GoesOn (reconcile_pending_validation c ir)
  unfolding reconcile_pending_validation
  pending-GoesOn ir = ground arith

  handle_fix_failure-GoesOn :
      (ir : IssueResolution) (attempt most : ℤ) (msg : Text)
      → GoesOn (handle_fix_failure c ir attempt most msg)
  unfolding handle_fix_failure
  handle_fix_failure-GoesOn ir attempt most msg = ground arith

  fix_succeeded-GoesOn :
      (ir : IssueResolution) (attempt most : ℤ) (report : Result FixJobResult)
      → GoesOn (fix_succeeded c j r ir attempt most report)
  unfolding fix_succeeded accept_fix
  fix_succeeded-GoesOn ir attempt most (err e) = handle_fix_failure-GoesOn ir attempt most _
  fix_succeeded-GoesOn ir attempt most (ok fr) =
      if_intro GoesOn (is_empty fr.pr_url) (λ _. handle_fix_failure-GoesOn ir attempt most _)
        (λ _. ground arith)

  observe_fix-GoesOn :
      (w : World) (ir : IssueResolution) (attempt most : ℤ) (job : Job)
      → GoesOn (observe_fix c j r w ir attempt most job)
  unfolding observe_fix
  observe_fix-GoesOn w ir attempt most job =
      if_intro GoesOn (ltb_ℤ (pos 0) job.succeeded) (λ _. fix_succeeded-GoesOn ir attempt most _)
        (λ _.
          if_intro GoesOn (ltb_ℤ (pos 0) job.failed)
            (λ _. handle_fix_failure-GoesOn ir attempt most _) (λ _. ground arith))

  start_fix-GoesOn :
      (w : World) (ir : IssueResolution) (attempt most : ℤ)
      → Of GoesOn (start_fix c j r w ir attempt most)
  unfolding start_fix create_built
  start_fix-GoesOn w ir attempt most =
      each GoesOn (start_fix c j r w ir attempt most) (λ w' ir' res h. ground arith)

  -- The Job of the attempt that the object waits for is not there.
  abbrev pub IsStranded : World → IssueResolution → IssueResolution → Type 0
  IsStranded w ir ir' =
      (is_ready ir.status.phase ≡ false)
      × (is_empty ir.status.execution.job_name ≡ false)
      × ((t : Text) × (c.get_job w
              (record { namespace = ir.namespace; name = fix_job_name ir (attempt_of ir) })
            ≡ err (not_found t)))
      × (ir' ≡ ir)

  abbrev OrStranded : World → IssueResolution → Reconciled → Type 0
  OrStranded w ir x = (GoesOn x) ⊎ IsStranded w ir x.0

  GoesOn-OrStranded :
      (w : World) (ir : IssueResolution) (x : World × Result Reconciled)
      → Of GoesOn x
      → Of (OrStranded w ir) x
  GoesOn-OrStranded w ir (w', err e) h = tt
  GoesOn-OrStranded w ir (w', ok x) h = inl h

  fix_with_job-OrStranded :
      (w : World) (ir : IssueResolution) (most : ℤ) (found : Result Job)
      → c.get_job w (record { namespace = ir.namespace; name = fix_job_name ir (attempt_of ir) })
        ≡ found
      → Of (OrStranded w ir) (fix_with_job c j r w ir (attempt_of ir) most found)
  unfolding fix_with_job
  fix_with_job-OrStranded w ir most (err (failure t)) e = tt
  fix_with_job-OrStranded w ir most (ok job) e = inl (observe_fix-GoesOn w ir _ most job)
  fix_with_job-OrStranded w ir most (err (not_found t)) e =
      if_intro (Of (OrStranded w ir))
        (not (is_ready ir.status.phase) && not (is_empty ir.status.execution.job_name))
        (λ b. inr (ground arith, ground arith, (t, e), refl))
        (λ b.
          GoesOn-OrStranded w ir (start_fix c j r w ir (attempt_of ir) most)
            (start_fix-GoesOn w ir (attempt_of ir) most))

  reconcile_fix-OrStranded :
      (w : World) (ir : IssueResolution) → Of (OrStranded w ir) (reconcile_fix c j r w ir)
  unfolding reconcile_fix
  reconcile_fix-OrStranded w ir =
      if_intro (Of (OrStranded w ir)) (is_pr_open ir.status.phase)
        (λ o. inl (pr_open_final ir.status.phase o))
        (λ b. fix_with_job-OrStranded w ir (max_attempts_of ir.spec.max_fix_attempts) _ refl)

  dispatch-OrStranded :
      (w : World) (ir : IssueResolution) (p : Phase)
      → ir.status.phase ≡ p
      → Of (OrStranded w ir) (dispatch c j r p w ir)
  unfolding dispatch
  dispatch-OrStranded w ir unset e =
      GoesOn-OrStranded w ir (reconcile_triage c j r w (set_phase triage ir))
        (reconcile_triage-GoesOn w (set_phase triage ir))
  dispatch-OrStranded w ir triage e =
      GoesOn-OrStranded w ir (reconcile_triage c j r w ir) (reconcile_triage-GoesOn w ir)
  dispatch-OrStranded w ir pending_validation e = inl (pending-GoesOn ir)
  dispatch-OrStranded w ir ready e = reconcile_fix-OrStranded w ir
  dispatch-OrStranded w ir executing e = reconcile_fix-OrStranded w ir
  dispatch-OrStranded w ir pr_open e = reconcile_fix-OrStranded w ir
  dispatch-OrStranded w ir done e = inl (rw e refl)
  dispatch-OrStranded w ir rejected e = inl (rw e refl)
  dispatch-OrStranded w ir failed e = inl (rw e refl)
  dispatch-OrStranded w ir (unknown t) e = inl refl

  read_goes_on :
      (x : Reconciled)
      → goes_on x ≡ true
      → (0 < x.1.requeue_after) ⊎ (is_final x.0.status.phase ≡ true)
  read_goes_on x h = elim (Bool-cases (ltb 0 x.1.requeue_after)) [
    | inl t ↦ inl (ground arith)
    | inr f ↦ inr (ground arith)
  ]

  read_outcome :
      (w : World) (ir : IssueResolution) (x : Reconciled)
      → OrStranded w ir x
      → (0 < x.1.requeue_after) ⊎ (is_final x.0.status.phase ≡ true) ⊎ IsStranded w ir x.0
  read_outcome w ir x (inr s) = inr (inr s)
  read_outcome w ir x (inl g) = elim (read_goes_on x g) [ inl n ↦ inl n | inr f ↦ inr (inl f) ]

  -- A pass that returns no error asks for another one, or leaves the object in a phase in which the
  -- operator has done its part; but for one case: the object waits for a fix Job that is not there,
  -- and is left as it is.
  pub pass_goes_on :
      (w w' : World) (ir ir' : IssueResolution) (res : CtrlResult)
      → dispatch c j r ir.status.phase w ir ≡ (w', ok (ir', res))
      → (0 < res.requeue_after) ⊎ (is_final ir'.status.phase ≡ true) ⊎ IsStranded w ir ir'
  pass_goes_on w w' ir ir' res h =
      read_outcome w ir (ir', res)
        (subst (Of (OrStranded w ir)) h (dispatch-OrStranded w ir ir.status.phase refl))
