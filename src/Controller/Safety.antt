-- ===== src/Controller/Safety.antt =====
-- What a pass does not do: a Job that is there is not created again.
use hal_agent_operator.Base.{true, Result, ok, arith, ◌≡◌, refl, ap, ◌⊎◌, inl, inr}
use hal_agent_operator.Api.{Phase, unset, triage, ready, executing, pr_open, IssueResolution}
use hal_agent_operator.Kube.{Cluster, Job, ObjectKey}
use hal_agent_operator.Controller.Config.{Reconciler}
use hal_agent_operator.Controller.Jobs.{triage_job_name, fix_job_name}
use hal_agent_operator.Controller.Results.{Json}
use hal_agent_operator.Controller.Handlers.{Reconciled, attempt_of, set_phase}
use hal_agent_operator.Controller.Triage.{reconcile_triage, triage_with_job, observe_triage}
use hal_agent_operator.Controller.Fix.{reconcile_fix, fix_with_job}
use hal_agent_operator.Controller.Reconcile.{dispatch}
use hal_agent_operator.Controller.Diagram.{is_triage, is_fix}

-- The key of the triage Job of an object.
abbrev pub triage_key : IssueResolution → ObjectKey
triage_key ir = record { namespace = ir.namespace; name = triage_job_name ir }

-- The key of the fix Job of the attempt that an object is at.
abbrev pub fix_key : IssueResolution → ObjectKey
fix_key ir = record { namespace = ir.namespace; name = fix_job_name ir (attempt_of ir) }

module _ {World : Type 0} (c : Cluster World) (j : Json) (r : Reconciler) where
  triage_job_found :
      (w : World) (ir : IssueResolution) (job : Job)
      → c.get_job w (triage_key ir) ≡ ok job
      → reconcile_triage c j r w ir ≡ (w, ok (observe_triage c j r w ir job))
  unfolding reconcile_triage triage_with_job
  triage_job_found w ir job g = rw g

  fix_job_found :
      (w : World) (ir : IssueResolution) (job : Job)
      → is_fix ir.status.phase ≡ true
      → c.get_job w (fix_key ir) ≡ ok job
      → (reconcile_fix c j r w ir).0 ≡ w
  unfolding reconcile_fix fix_with_job
  fix_job_found w ir job p g = rw g (ground arith)

  existing_job :
      (p : Phase) (w : World) (ir : IssueResolution) (job : Job)
      → ir.status.phase ≡ p
      → ((is_triage p ≡ true) × (c.get_job w (triage_key ir) ≡ ok job))
        ⊎ ((is_fix p ≡ true) × (c.get_job w (fix_key ir) ≡ ok job))
      → (dispatch c j r p w ir).0 ≡ w
  unfolding dispatch triage_job_name
  existing_job unset w ir job e (inl (t, g)) =
      ap (λ (x : World × Result Reconciled). x.0) (triage_job_found w (set_phase triage ir) job g)
  existing_job triage w ir job e (inl (t, g)) =
      ap (λ (x : World × Result Reconciled). x.0) (triage_job_found w ir job g)
  existing_job ready w ir job e (inr (f, g)) = fix_job_found w ir job (ground arith) g
  existing_job executing w ir job e (inr (f, g)) = fix_job_found w ir job (ground arith) g
  existing_job unset w ir job e (inr (f, g)) = cc
  existing_job triage w ir job e (inr (f, g)) = cc
  existing_job ready w ir job e (inl (t, g)) = cc
  existing_job executing w ir job e (inl (t, g)) = cc
  existing_job pr_open w ir job e _ = ground arith
  existing_job _ w ir job e _ = refl

  -- Where the Job that a phase calls for is there, a pass over the object creates nothing and
  -- changes nothing else of the cluster: a pass that was cut off after Create is safe to repeat.
  pub existing_job_is_kept :
      (w : World) (ir : IssueResolution) (job : Job)
      → ((is_triage ir.status.phase ≡ true) × (c.get_job w (triage_key ir) ≡ ok job))
        ⊎ ((is_fix ir.status.phase ≡ true) × (c.get_job w (fix_key ir) ≡ ok job))
      → (dispatch c j r ir.status.phase w ir).0 ≡ w
  existing_job_is_kept w ir job h = existing_job ir.status.phase w ir job refl h
