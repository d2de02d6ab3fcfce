-- ===== src/Controller/Scenarios/Traces.antt =====
-- The scenario as a run, and the theorems on runs at its last state.
use hal_agent_operator.Base.{
  [], Option, none, some, arith, ◌≡◌, refl, ap, inl, inr, Any, All, pos, ◌≤ℤ◌,
}
use hal_agent_operator.Api.{IssueResolution}
use hal_agent_operator.Kube.{Job, ObjectKey}
use hal_agent_operator.Controller.Handlers.{max_attempts_of}
use hal_agent_operator.Controller.Runs.{History, remember, IsOutside, Run, start, pass, outside}
use hal_agent_operator.Controller.Gate.{
  IsVetted, IsApproval, fix_is_gated, IsLicensed, created-IsLicensed,
}
use hal_agent_operator.Controller.Attempts.{
  IsCapped, IsNamed, attempts_are_capped, fix_jobs_are_capped,
}
use hal_agent_operator.Controller.Security.{IsHardened, created-IsHardened}
use hal_agent_operator.Controller.Fake.{
  Fake, fake, stored_at, stored_at-some, stored_at_self, fake_laws,
}
use hal_agent_operator.Controller.Scenarios.{
  settings, json, issue, key, approve, approve_stored, next, progress, approve_in, empty, opened,
  triaging, waiting, approved, fixing,
}

opening-IsOutside : IsOutside fake fake_laws empty opened
opening-IsOutside = record {
  keeps_status =
      λ k x e. inr (ap (λ (z : IssueResolution). z.status) (stored_at-some issue k x e).0);
  keeps_created = refl;
}

progress-IsOutside : (w : Fake) → IsOutside fake fake_laws w (progress w)
unfolding progress
progress-IsOutside w = record { keeps_status = λ k x e. inl (x, e, refl); keeps_created = refl }

stored_at-approve :
    (o : Option IssueResolution) (k : ObjectKey) (x : IssueResolution)
    → stored_at (approve_stored o) k ≡ some x
    → (y : IssueResolution) × (stored_at o k ≡ some y) × (x.status ≡ y.status)
stored_at-approve none k x e = unfold stored_at in cc
stored_at-approve (some ir) k x e =
    let (same, at_key) = stored_at-some (approve ir) k x e in
    (ir, stored_at_self ir k at_key, ap (λ (z : IssueResolution). z.status) same)

approve-IsOutside : (w : Fake) → IsOutside fake fake_laws w (approve_in w)
unfolding approve_in
approve-IsOutside w = record {
  keeps_status = λ k x e. inl (stored_at-approve w.issue k x e);
  keeps_created = refl;
}

abbrev read_in : Fake → History → History
read_in w h = remember (fake.get_issue w key) h

-- The objects that the four passes read.
abbrev reads : History
reads =
    read_in approved
      (read_in (approve_in waiting) (read_in (progress triaging) (read_in opened [])))

fixing-Run : Run fake fake_laws json settings fixing reads
unfolding fixing approved waiting triaging next
fixing-Run = pass key (
    pass key (
      outside
        (pass key (
          outside
            (pass key (outside (start (λ k. unfold stored_at in refl) refl) opening-IsOutside))
            (progress-IsOutside triaging)))
        (approve-IsOutside waiting)))

abbrev or_issue : Option IssueResolution → IssueResolution
or_issue none = issue
or_issue (some ir) = ir

-- The object that the last pass stored.
fixing_issue : IssueResolution
unfolding fixing
fixing_issue = or_issue fixing.issue

fixing_stored : fake_laws.stored fixing key ≡ some fixing_issue
unfolding fixing_issue
fixing_stored = refl

fix_is_gated_example : IsVetted fixing_issue.status × Any (IsApproval key) reads
unfolding fixing_issue
fix_is_gated_example =
    fix_is_gated fake fake_laws json settings key fixing_issue fixing-Run fixing_stored refl

created-IsLicensed_example :
    All (IsLicensed fake fake_laws json settings reads) (fake_laws.created fixing)
created-IsLicensed_example = created-IsLicensed fake fake_laws json settings fixing-Run

created-IsHardened_example : All (λ (job : Job). IsHardened job.template) (fake_laws.created fixing)
created-IsHardened_example = created-IsHardened fake fake_laws json settings fixing-Run

capped : IsCapped (pos 2) reads
unfolding fixing max_attempts_of
capped = (refl, (refl, (refl, (refl, tt))))

attempts_are_capped_example :
    (pos 0 ≤ℤ fixing_issue.status.execution.attempt)
    × (fixing_issue.status.execution.attempt ≤ℤ pos 2)
attempts_are_capped_example =
    attempts_are_capped (pos 2) (omega arith) (omega arith) fake fake_laws json settings key
      fixing_issue fixing-Run capped fixing_stored

fix_jobs_are_capped_example : All (IsNamed (pos 2)) (fake_laws.created fixing)
fix_jobs_are_capped_example =
    fix_jobs_are_capped (pos 2) (omega arith) (omega arith) fake fake_laws json settings fixing-Run
      capped
