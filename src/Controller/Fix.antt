-- ===== src/Controller/Fix.antt =====
-- reconcileFix: create the fix Job of the attempt, or look at what became of it.
use hal_agent_operator.Base.{
  ℤ, pos, ltb_ℤ, Text, ◌++◌, Option, none, some, not, ◌&&◌, utf8, is_empty, Error, not_found,
  failure, Result, ok, err, if◌then◌else◌,
}
use hal_agent_operator.Api.{
  executing, pr_open, condition_true, IssueResolution, condition_executing, condition_pr_open,
}
use hal_agent_operator.Kube.{Job, Cluster}
use hal_agent_operator.Controller.Config.{Reconciler}
use hal_agent_operator.Controller.Jobs.{fix_job_name, fix_branch_name, build_fix_job}
use hal_agent_operator.Controller.Results.{FixJobResult, Json, read_fix_result}
use hal_agent_operator.Controller.Handlers.{
  create_built, job_poll_requeue, Reconciled, requeue, set_phase, set_message, print_error,
  of_attempts, max_attempts_of, attempt_of, set_condition, is_ready, is_pr_open, handle_fix_failure,
}

module _ {World : Type 0} (c : Cluster World) (j : Json) (r : Reconciler) where
  -- reconcileFix where the Job is not there and may be created.
  unfoldable pub start_fix : World → IssueResolution → ℤ → ℤ → World × Result Reconciled
  start_fix w ir attempt max_attempts =
      let message =
        utf8 "Fix Job "
        ++ (fix_job_name ir attempt ++ (utf8 " created " ++ of_attempts attempt max_attempts)) in
      let execution = record ir.status.execution {
        attempt = attempt;
        job_name = fix_job_name ir attempt;
        branch = fix_branch_name ir attempt;
      } in
      create_built c w (build_fix_job c r ir attempt (fix_branch_name ir attempt)) (
        requeue
          (set_condition c condition_executing condition_true (utf8 "JobCreated") message
            (record ir {
              status = record ir.status {
                phase = executing;
                execution = execution;
                message = message;
              };
            }))
          job_poll_requeue)

  -- reconcileFix where the Job succeeded and its report is read.
  unfoldable pub accept_fix : IssueResolution → ℤ → FixJobResult → Reconciled
  accept_fix ir attempt fr =
      requeue
        (set_condition c condition_pr_open condition_true (utf8 "PROpened") fr.pr_url (record ir {
          status = record ir.status {
            phase = pr_open;
            execution = record {
              attempt = attempt;
              job_name = fix_job_name ir attempt;
              branch = fr.branch;
              pr_url = fr.pr_url;
              pr_number = fr.pr_number;
            };
            message = utf8 "PR opened: " ++ fr.pr_url;
          };
        }))
        0

  abbrev unreadable_fix : Option Error → Text
  unreadable_fix e = utf8 "Fix Job succeeded but result unreadable: " ++ print_error e

  unfoldable pub fix_succeeded : IssueResolution → ℤ → ℤ → Result FixJobResult → Reconciled
  fix_succeeded ir attempt max_attempts (err e) =
      handle_fix_failure c ir attempt max_attempts (unreadable_fix (some e))
  fix_succeeded ir attempt max_attempts (ok fr) =
      if is_empty fr.pr_url
      then handle_fix_failure c ir attempt max_attempts (unreadable_fix none)
      else accept_fix ir attempt fr

  -- reconcileFix where the Job is there.
  unfoldable pub observe_fix : World → IssueResolution → ℤ → ℤ → Job → Reconciled
  observe_fix w ir attempt max_attempts job =
      if ltb_ℤ (pos 0) job.succeeded
      then fix_succeeded ir attempt max_attempts (read_fix_result c j r w ir job)
      else if ltb_ℤ (pos 0) job.failed
      then handle_fix_failure c ir attempt max_attempts
          (utf8 "Fix Job " ++ (fix_job_name ir attempt ++ utf8 " failed"))
      else requeue
          (set_message
            (utf8 "Fix Job "
              ++ (fix_job_name ir attempt
                  ++ (utf8 " running… " ++ of_attempts attempt max_attempts)))
            (set_phase executing ir))
          job_poll_requeue

  unfoldable pub fix_with_job :
      World → IssueResolution → ℤ → ℤ → Result Job → World × Result Reconciled
  fix_with_job w ir attempt max_attempts (err (not_found t)) =
      if not (is_ready ir.status.phase) && not (is_empty ir.status.execution.job_name)
      then (w, ok (requeue ir 0))
      else start_fix w ir attempt max_attempts
  fix_with_job w ir attempt max_attempts (err (failure t)) = (w, err (failure t))
  fix_with_job w ir attempt max_attempts (ok job) =
      (w, ok (observe_fix w ir attempt max_attempts job))

  unfoldable pub reconcile_fix : World → IssueResolution → World × Result Reconciled
  reconcile_fix w ir =
      if is_pr_open ir.status.phase
      then (w, ok (requeue ir 0))
      else (let attempt = attempt_of ir in
          fix_with_job w ir attempt (max_attempts_of ir.spec.max_fix_attempts)
            (c.get_job w (record { namespace = ir.namespace; name = fix_job_name ir attempt })))
