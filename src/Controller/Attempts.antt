-- ===== src/Controller/Attempts.antt =====
-- The attempts of Job 2: bounded by spec.maxFixAttempts in every run, each with a Job of its own name.
use mathlib.Core.List.{append_cancel_left}
use hal_agent_operator.Base.{
  ℤ, pos, add32, add32-one_parts, IsInt32, ◌≤ℤ◌, ◌<ℤ◌, utf8, decimal-injective, ◌∷◌, some, arith,
  ◌≡◌, ap, All, All-map,
}
use hal_agent_operator.Api.{IssueResolution, IssueResolutionStatus}
use hal_agent_operator.Kube.{Cluster, Job, ObjectKey}
use hal_agent_operator.Kube.Laws.{IsCluster, key_of}
use hal_agent_operator.Controller.Config.{Reconciler}
use hal_agent_operator.Controller.Jobs.{triage_job, fix_job, fix_job_name, triage_job_name}
use hal_agent_operator.Controller.Results.{Json}
use hal_agent_operator.Controller.Handlers.{attempt_of}
use hal_agent_operator.Controller.Diagram.{
  max_of, Step, triaging, vetted, refused, triage_failed, waiting, approved, launched, running,
  retried, exhausted, opened, rested, reset,
}
use hal_agent_operator.Controller.Launches.{Launch, launch_triage, launch_fix}
use hal_agent_operator.Controller.Runs.{History, Run}
use hal_agent_operator.Controller.Runs.Induction.{IsKept, run_induction}
use hal_agent_operator.Controller.Runs.Created.{IsLicence, created_induction}

-- Different attempts of one object have Jobs of different names.
pub fix_job_name-injective :
    (ir : IssueResolution) (a b : ℤ) → fix_job_name ir a ≡ fix_job_name ir b → a ≡ b
unfolding fix_job_name
fix_job_name-injective ir a b e =
    decimal-injective a b (append_cancel_left (utf8 "-fix-") _ _ (append_cancel_left ir.name _ _ e))

-- Every read of a run had the cap `m`.
abbrev pub IsCapped : ℤ → History → Type 0
IsCapped m = All (λ ir. max_of ir ≡ m)

-- A Job named as a triage Job, or as the fix Job of an attempt within the cap `m`.
pub data IsNamed (m : ℤ) (job : Job) : Type 0 where
  triage_named : (ir : IssueResolution) → job.name ≡ triage_job_name ir → IsNamed m job
  fix_named :
      (ir : IssueResolution) (attempt : ℤ)
      → pos 1 ≤ℤ attempt
      → attempt ≤ℤ m
      → job.name ≡ fix_job_name ir attempt
      → IsNamed m job

module _ (m : ℤ) (int32 : IsInt32 m) (one_allowed : pos 1 ≤ℤ m) where
  abbrev pub AttemptFits : History → ObjectKey → IssueResolutionStatus → Type 0
  AttemptFits h k s = IsCapped m h → (pos 0 ≤ℤ s.execution.attempt) × (s.execution.attempt ≤ℤ m)

  attempt_of-fits :
      (ir : IssueResolution)
      → (pos 0 ≤ℤ ir.status.execution.attempt) × (ir.status.execution.attempt ≤ℤ m)
      → (pos 1 ≤ℤ attempt_of ir) × (attempt_of ir ≤ℤ m)
  unfolding attempt_of
  attempt_of-fits ir h = ground arith

  next-fits :
      (a b : ℤ)
      → (pos 1 ≤ℤ a) × (a ≤ℤ m)
      → b ≡ m
      → a <ℤ b
      → (pos 0 ≤ℤ add32 a (pos 1)) × (add32 a (pos 1) ≤ℤ m)
  next-fits a b h e l = ground (arith, add32-one_parts a m (omega arith) int32 (ground arith))

  Step-AttemptFits :
      (h : History) (ir : IssueResolution) (s : IssueResolutionStatus)
      → AttemptFits h (key_of ir) ir.status
      → Step ir s
      → AttemptFits (ir ∷ h) (key_of ir) (record s { observed_generation = ir.generation })
  Step-AttemptFits h ir s f (triaging _ _ _ e) c = ground (arith, f c.1)
  Step-AttemptFits h ir s f (vetted _ _ _ _ _ e) c = ground (arith, f c.1)
  Step-AttemptFits h ir s f (refused _ _ _ e) c = ground (arith, f c.1)
  Step-AttemptFits h ir s f (triage_failed _ _ e) c = ground (arith, f c.1)
  Step-AttemptFits h ir s f (waiting _ _ _ _ e) c = ground (arith, f c.1)
  Step-AttemptFits h ir s f (approved _ _ _ _ e) c = ground (arith, f c.1)
  Step-AttemptFits h ir s f (launched _ _ _ e _ _) c = ground (arith, attempt_of-fits ir (f c.1))
  Step-AttemptFits h ir s f (running _ _ _ e) c = ground (arith, f c.1)
  Step-AttemptFits h ir s f (retried _ l _ _ e) c =
      ground (arith, next-fits (attempt_of ir) (max_of ir) (attempt_of-fits ir (f c.1)) c.0 l)
  Step-AttemptFits h ir s f (exhausted _ _ _ _ e) c = ground (arith, f c.1)
  Step-AttemptFits h ir s f (opened _ _ _ e _) c = ground (arith, attempt_of-fits ir (f c.1))
  Step-AttemptFits h ir s f (rested _ e) c = ground (arith, f c.1)
  Step-AttemptFits h ir s f (reset _ _ _ e) c = ground (arith, f c.1)

  abbrev NameFits : History → Job → Type 0
  NameFits h job = IsCapped m h → IsNamed m job

  module _ {World : Type 0} (c : Cluster World) (laws : IsCluster c) (j : Json)
      (r : Reconciler) where
    attempts_keep : IsKept c laws j r AttemptFits
    attempts_keep = record {
      fresh = λ h k cap. omega arith;
      later = λ h k s ir f cap. f cap.1;
      step = Step-AttemptFits;
    }

    -- In a run whose reads all had the cap m, at least 1, no stored object is at an attempt past m.
    pub attempts_are_capped :
        {w : World} {h : History} (k : ObjectKey) (ir : IssueResolution)
        → Run c laws j r w h
        → IsCapped m h
        → laws.stored w k ≡ some ir
        → (pos 0 ≤ℤ ir.status.execution.attempt) × (ir.status.execution.attempt ≤ℤ m)
    attempts_are_capped k ir run cap e =
        run_induction c laws j r AttemptFits attempts_keep run k ir e cap

    launch_names : IsLicence c laws j r NameFits
    unfolding triage_job fix_job
    launch_names = record { later = later; launched = launched }
      where
        later :
            (h : History) (job : Job) (ir : IssueResolution)
            → NameFits h job
            → NameFits (ir ∷ h) job
        later h job ir f cap = f cap.1

        launched :
            {w : World} {h : History} (ir : IssueResolution) (job : Job)
            → Run c laws j r w h
            → laws.stored w (key_of ir) ≡ some ir
            → Launch r ir job
            → NameFits (ir ∷ h) job
        launched ir job run here (launch_triage _ e) cap =
            triage_named ir (ap (λ (x : Job). x.name) e)
        launched ir job run here (launch_fix _ _ e) cap =
            let (low, high) =
              attempt_of-fits ir (
                run_induction c laws j r AttemptFits attempts_keep run (key_of ir) ir here cap.1) in
            fix_named ir (attempt_of ir) low high (ap (λ (x : Job). x.name) e)

    -- In a run whose reads all had the cap m, at least 1, each Job that was created is named as a
    -- triage Job, or as the fix Job of an attempt from 1 to m.
    pub fix_jobs_are_capped :
        {w : World} {h : History}
        → Run c laws j r w h
        → IsCapped m h
        → All (IsNamed m) (laws.created w)
    fix_jobs_are_capped run cap =
        All-map _ (λ job f. f cap) (created_induction c laws j r NameFits launch_names run)
