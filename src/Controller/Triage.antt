-- ===== src/Controller/Triage.antt =====
-- reconcileTriage. A handler returns the changed object and the requeue; where it returns an
-- error, Reconcile drops what it changed.
use hal_agent_operator.Base.{
  pos, ltb_ℤ, Text, [], ◌∷◌, ◌++◌, Bool, not, ◌||◌, utf8, is_empty, error_text, not_found, failure,
  Result, ok, err, if◌then◌else◌,
}
use hal_agent_operator.Api.{
  pending_validation, rejected, failed, condition_true, condition_false, TriageStatus,
  IssueResolution, condition_triaged, condition_awaiting_approval, condition_failed,
}
use hal_agent_operator.Kube.{Job, Cluster}
use hal_agent_operator.Controller.Config.{Reconciler, gemini_model, first_non_empty}
use hal_agent_operator.Controller.Jobs.{triage_job_name, build_triage_job}
use hal_agent_operator.Controller.Results.{TriageJobResult, Json, read_triage_result}
use hal_agent_operator.Controller.Handlers.{
  create_built, pending_approval_requeue, job_poll_requeue, Reconciled, requeue, set_phase,
  set_message, kubectl_logs, set_condition,
}

module _ {World : Type 0} (c : Cluster World) (j : Json) (r : Reconciler) where
  -- reconcileTriage where the Job is not there: create it.
  unfoldable pub start_triage : World → IssueResolution → World × Result Reconciled
  start_triage w ir =
      let message =
        utf8 "Triage Job "
        ++ (triage_job_name ir
            ++ (utf8 " created — watch logs with: " ++ kubectl_logs (triage_job_name ir) ir)) in
      create_built c w (build_triage_job c r ir) (
        requeue
          (set_condition c condition_triaged condition_false (utf8 "JobCreated") message
            (set_message message ir))
          job_poll_requeue)

  -- reconcileTriage where the Job succeeded and its report cannot be used.
  unfoldable pub unreadable_triage : IssueResolution → Text → Text → Reconciled
  unreadable_triage ir msg model =
      let triage_status : TriageStatus = record {
        in_scope = Bool.false;
        suspicious = Bool.false;
        summary = msg;
        model = first_non_empty (model ∷ gemini_model r ∷ []);
        parse_error = Bool.true;
      } in
      requeue
        (set_condition c condition_failed condition_true (utf8 "TriageResultUnreadable") msg
          (record ir {
            status = record ir.status { phase = failed; message = msg; triage = triage_status };
          }))
        0

  -- reconcileTriage where the Job succeeded and its report is read.
  unfoldable pub accept_triage : IssueResolution → TriageJobResult → Reconciled
  accept_triage ir tr =
      let ir' = record ir {
        status = record ir.status {
          triage = record {
            in_scope = tr.in_scope;
            suspicious = tr.suspicious;
            summary = tr.summary;
            model = tr.model;
            parse_error = Bool.false;
          };
          plan = record { comment_url = tr.comment_url; summary = tr.summary };
        };
      } in
      if tr.suspicious || not tr.in_scope
      then requeue
          (set_condition c condition_triaged condition_true (utf8 "Rejected") tr.summary (
            set_message (utf8 "Rejected by triage — see GitHub comment / Job logs")
              (set_phase rejected ir')))
          0
      else (let message =
            (if is_empty tr.comment_url
              then utf8 "Triage OK. Gemini summary in status + Job logs ("
                ++ (kubectl_logs (triage_job_name ir) ir
                    ++ utf8 "). Waiting for spec.approved=true")
              else utf8 "Triage OK. Plan comment: "
                ++ (tr.comment_url ++ utf8 " — waiting for spec.approved=true")) in
          requeue
            (set_condition c condition_awaiting_approval condition_true (utf8 "PendingAgentGo")
              (utf8 "Set spec.approved=true to continue")
              (set_condition c condition_triaged condition_true (utf8 "InScope") tr.summary
                (set_message message (set_phase pending_validation ir'))))
            pending_approval_requeue)

  unfoldable pub triage_succeeded : IssueResolution → Result TriageJobResult → Reconciled
  unfolding unreadable_triage accept_triage
  triage_succeeded ir (err e) =
      unreadable_triage ir
        (utf8 "Triage Job succeeded but could not read result: "
          ++ (error_text e ++ utf8 " (see job logs)"))
        []
  triage_succeeded ir (ok tr) =
      if tr.parse_error
      then unreadable_triage ir
          (utf8 "Triage Job succeeded but model output was not valid JSON (see job logs)") tr.model
      else accept_triage ir tr

  -- reconcileTriage where the Job is there.
  unfoldable pub observe_triage : World → IssueResolution → Job → Reconciled
  unfolding triage_succeeded
  observe_triage w ir job =
      if ltb_ℤ (pos 0) job.succeeded
      then triage_succeeded ir (read_triage_result c j r w ir job)
      else if ltb_ℤ (pos 0) job.failed
      then (let message =
            utf8 "Triage Job "
            ++ (triage_job_name ir
                ++ (utf8 " failed — " ++ kubectl_logs (triage_job_name ir) ir)) in
          requeue
            (set_condition c condition_failed condition_true (utf8 "TriageJobFailed") message
              (set_message message (set_phase failed ir)))
            0)
      else requeue (set_message (utf8 "Triage Job " ++ (triage_job_name ir ++ utf8 " running…")) ir)
          job_poll_requeue

  unfoldable pub triage_with_job : World → IssueResolution → Result Job → World × Result Reconciled
  unfolding start_triage observe_triage
  triage_with_job w ir (err (not_found t)) = start_triage w ir
  triage_with_job w ir (err (failure t)) = (w, err (failure t))
  triage_with_job w ir (ok job) = (w, ok (observe_triage w ir job))

  unfoldable pub reconcile_triage : World → IssueResolution → World × Result Reconciled
  unfolding triage_with_job
  reconcile_triage w ir =
      triage_with_job w ir
        (c.get_job w (record { namespace = ir.namespace; name = triage_job_name ir }))
