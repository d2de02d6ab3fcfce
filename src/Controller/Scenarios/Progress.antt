-- ===== src/Controller/Scenarios/Progress.antt =====
-- The theorems on what follows a pass, at states of the scenario.
use hal_agent_operator.Base.{true, ◌≡◌, ◌⊎◌, ◌<◌, refl}
use hal_agent_operator.Api.{IssueResolution, pending_validation}
use hal_agent_operator.Controller.Handlers.{set_phase, reconcile_pending_validation}
use hal_agent_operator.Controller.Reconcile.{dispatch}
use hal_agent_operator.Controller.Progress.{is_final, IsStranded, pass_goes_on}
use hal_agent_operator.Controller.Fake.{fake}
use hal_agent_operator.Controller.Scenarios.{settings, json, issue, empty}

abbrev waiting : IssueResolution
waiting = set_phase pending_validation issue

pass_goes_on_example :
    (0 < (reconcile_pending_validation fake waiting).1.requeue_after)
    ⊎ (is_final (reconcile_pending_validation fake waiting).0.status.phase ≡ true)
    ⊎ IsStranded fake json settings empty waiting (reconcile_pending_validation fake waiting).0
unfolding dispatch
pass_goes_on_example =
    pass_goes_on fake json settings empty empty waiting
      (reconcile_pending_validation fake waiting).0 (reconcile_pending_validation fake waiting).1
      refl
