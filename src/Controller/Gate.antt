-- ===== src/Controller/Gate.antt =====
-- The two gates and the cost cap over every run: no fix without a clean triage and a human's
-- approval, and no attempt past spec.maxFixAttempts.
use hal_agent_operator.Base.{Bool, true, false, ◌∷◌, some, arith, ◌≡◌, refl, inl, inr, All, Any}
use hal_agent_operator.Api.{
  Phase, pending_validation, ready, executing, pr_open, IssueResolution, IssueResolutionStatus,
}
use hal_agent_operator.Kube.{Cluster, Job, ObjectKey}
use hal_agent_operator.Kube.Laws.{IsCluster, key_of}
use hal_agent_operator.Controller.Config.{Reconciler}
use hal_agent_operator.Controller.Jobs.{triage_job, fix_job, fix_branch_name}
use hal_agent_operator.Controller.Results.{Json}
use hal_agent_operator.Controller.Handlers.{attempt_of}
use hal_agent_operator.Controller.Diagram.{
  is_triage, is_fix, Step, triaging, vetted, refused, triage_failed, waiting, approved, launched,
  running, retried, exhausted, opened, rested, reset,
}
use hal_agent_operator.Controller.Launches.{Launch, launch_triage, launch_fix}
use hal_agent_operator.Controller.Runs.{History, Run}
use hal_agent_operator.Controller.Runs.Induction.{IsKept, run_induction}
use hal_agent_operator.Controller.Runs.Created.{IsLicence, created_induction}

abbrev pub is_past_triage : Phase → Bool
is_past_triage pending_validation = true
is_past_triage ready = true
is_past_triage executing = true
is_past_triage pr_open = true
is_past_triage _ = false

abbrev pub is_past_approval : Phase → Bool
is_past_approval ready = true
is_past_approval executing = true
is_past_approval pr_open = true
is_past_approval _ = false

-- The triage found the issue in scope and not suspicious, and its report was readable.
abbrev pub IsVetted : IssueResolutionStatus → Type 0
IsVetted s =
    (s.triage.in_scope ≡ true) × (s.triage.suspicious ≡ false) × (s.triage.parse_error ≡ false)

-- A read of the object `k` at which it waited for approval and had it.
abbrev pub IsApproval : ObjectKey → IssueResolution → Type 0
IsApproval k ir =
    (key_of ir ≡ k) × (ir.status.phase ≡ pending_validation) × (ir.spec.approved ≡ true)

-- What the gates promise of a stored status.
pub record IsGated (h : History) (k : ObjectKey) (s : IssueResolutionStatus) : Type 0 where
  pub vetted_past_triage : is_past_triage s.phase ≡ true → IsVetted s
  pub approved_past_approval : is_past_approval s.phase ≡ true → Any (IsApproval k) h

IsGated-later :
    (h : History) (k : ObjectKey) (s : IssueResolutionStatus) (ir : IssueResolution)
    → IsGated h k s
    → IsGated (ir ∷ h) k s
IsGated-later h k s ir g = record {
  vetted_past_triage = g.vetted_past_triage;
  approved_past_approval = λ p. inr (g.approved_past_approval p);
}

-- A step in the fix phases keeps what let it in.
fix-IsGated :
    (h : History) (ir : IssueResolution) (s : IssueResolutionStatus)
    → IsGated h (key_of ir) ir.status
    → is_fix ir.status.phase ≡ true
    → s.triage ≡ ir.status.triage
    → IsGated (ir ∷ h) (key_of ir) (record s { observed_generation = ir.generation })
fix-IsGated h ir s g p t = record {
  vetted_past_triage = λ _. ground (arith, g.vetted_past_triage (ground arith));
  approved_past_approval = λ _. inr (g.approved_past_approval (ground arith));
}

Step-IsGated :
    (h : History) (ir : IssueResolution) (s : IssueResolutionStatus)
    → IsGated h (key_of ir) ir.status
    → Step ir s
    → IsGated (ir ∷ h) (key_of ir) (record s { observed_generation = ir.generation })
Step-IsGated h ir s g (triaging _ a _ _) = ground arith
Step-IsGated h ir s g (vetted _ a b d e _) = ground arith
Step-IsGated h ir s g (refused _ a _ _) = ground arith
Step-IsGated h ir s g (triage_failed _ a _) = ground arith
Step-IsGated h ir s g (waiting p _ a t _) = ground arith
Step-IsGated h ir s g (approved p q a t _) = record {
  vetted_past_triage = λ _. ground arith;
  approved_past_approval = λ _. inl (refl, p, q);
}
Step-IsGated h ir s g (launched p a t _ _ _) = fix-IsGated h ir s g p t
Step-IsGated h ir s g (running p a t _) = fix-IsGated h ir s g p t
Step-IsGated h ir s g (retried p _ a t _) = fix-IsGated h ir s g p t
Step-IsGated h ir s g (exhausted p _ a t _) = fix-IsGated h ir s g p t
Step-IsGated h ir s g (opened p a t _ _) = fix-IsGated h ir s g p t
Step-IsGated h ir s g (rested p e) =
    let g' = IsGated-later h (key_of ir) ir.status ir g in
    record {
      vetted_past_triage = λ q. ground (arith, g'.vetted_past_triage (ground arith));
      approved_past_approval = λ q. g'.approved_past_approval (ground arith);
    }
Step-IsGated h ir s g (reset _ a _ _) = ground arith

module _ {World : Type 0} (c : Cluster World) (laws : IsCluster c) (j : Json) (r : Reconciler) where
  gates : IsKept c laws j r IsGated
  gates = record { fresh = λ h k. ground arith; later = IsGated-later; step = Step-IsGated }

  -- In every run of passes that are each one step on current reads, between which others change specs,
  -- Jobs and pods, and add and delete objects, but write no status: an object that is ready for a fix, in a fix or has a pull request was found in
  -- scope, not suspicious and readable by the triage, and a pass read it while it waited for
  -- approval with spec.approved set.
  pub fix_is_gated :
      {w : World} {h : History} (k : ObjectKey) (ir : IssueResolution)
      → Run c laws j r w h
      → laws.stored w k ≡ some ir
      → is_past_approval ir.status.phase ≡ true
      → IsVetted ir.status × Any (IsApproval k) h
  fix_is_gated k ir run e p =
      let g = run_induction c laws j r IsGated gates run k ir e in
      (g.vetted_past_triage (ground arith), g.approved_past_approval p)

  -- A created Job with the reason that licensed it.
  pub data IsLicensed (h : History) (job : Job) : Type 0 where
    for_triage :
        (ir : IssueResolution)
        → Any (λ x. x ≡ ir) h
        → is_triage ir.status.phase ≡ true
        → job ≡ record (triage_job r ir) { owner = job.owner }
        → IsLicensed h job
    for_fix :
        (ir : IssueResolution)
        → Any (λ x. x ≡ ir) h
        → IsVetted ir.status
        → Any (IsApproval (key_of ir)) h
        → job ≡ record (fix_job r ir (attempt_of ir) (fix_branch_name ir (attempt_of ir))) {
          owner = job.owner;
        }
        → IsLicensed h job

  licences : IsLicence c laws j r IsLicensed
  licences = record { later = later; launched = launched }
    where
      later :
          (h : History) (job : Job) (ir : IssueResolution)
          → IsLicensed h job
          → IsLicensed (ir ∷ h) job
      later h job ir (for_triage x a b e) = for_triage x (inr a) b e
      later h job ir (for_fix x a v p e) = for_fix x (inr a) v (inr p) e

      launched :
          {w : World} {h : History} (ir : IssueResolution) (job : Job)
          → Run c laws j r w h
          → laws.stored w (key_of ir) ≡ some ir
          → Launch r ir job
          → IsLicensed (ir ∷ h) job
      launched ir job run here (launch_triage p e) = for_triage ir (inl refl) p e
      launched ir job run here (launch_fix p _ e) =
          let (v, a) = fix_is_gated (key_of ir) ir run here (ground arith) in
          for_fix ir (inl refl) v (inr a) e

  -- In every run, each Job that was created is the triage Job of an object that a pass read in
  -- triage, or the fix Job of an object that a pass read with a clean triage and whose approval an
  -- earlier pass had read; it is that Job in all but the owner reference.
  pub created-IsLicensed :
      {w : World} {h : History} → Run c laws j r w h → All (IsLicensed h) (laws.created w)
  created-IsLicensed run = created_induction c laws j r IsLicensed licences run
