-- ===== src/Triage/Scenarios.antt =====
-- Tests of the label plan on an issue, and examples of the properties.
use hal_agent_operator.Base.{
  Text, List, [], ◌∷◌, true, false, none, ok, utf8, pos, split_slash, ◌≡◌, ◌↔◌, refl,
}
use hal_agent_operator.Api.{pending_validation, rejected}
use hal_agent_operator.Controller.Scenarios.{settings, issue, json}
use hal_agent_operator.Controller.Results.{TriageJobResult}
use hal_agent_operator.Controller.Fake.{fake}
use hal_agent_operator.Controller.Triage.{triage_succeeded}
use hal_agent_operator.Triage.Report.{TriageResult}
use hal_agent_operator.Triage.Labels.{
  IssueRef, triage_label_plan, sync_triage_labels, triage_executed, suspicious_true,
  suspicious_false, in_scope_true, in_scope_false, label_pending_validation, label_rejected,
}
use hal_agent_operator.Triage.Sync.{contains, all_labels, sync_triage_labels_lem}
use hal_agent_operator.Triage.Agreement.{labels_agree}
use hal_agent_operator.Triage.Fake.{github, github_laws, take_off}
use hal_agent_operator.Triage.Finish.{
  Surroundings, finish_triage, post_triage_feedback, issue_ref, split_repo, two_parts, atoi,
  unsigned_int, scan_int, post_to, after_comment, after_sync, after_feedback, logged,
  write_termination,
}
use hal_agent_operator.Triage.Finished.{Finished, finish_triage-Finished}

abbrev result : TriageResult
result = record {
  in_scope = true;
  suspicious = false;
  summary = utf8 "ok";
  model = utf8 "m";
  parse_error = false;
  comment_url = [];
  raw = [];
}

abbrev unread : TriageResult
unread = record result { in_scope = false; parse_error = true }

abbrev report : TriageJobResult
report = record {
  in_scope = true;
  suspicious = false;
  summary = utf8 "ok";
  model = utf8 "m";
  parse_error = false;
  comment_url = [];
}

abbrev place : IssueRef
place = record { owner = utf8 "o"; repo = utf8 "r"; number = pos 7 }

-- An issue that was rejected in an earlier triage.
abbrev labels : List Text
labels = utf8 "bug" ∷ label_rejected ∷ in_scope_false ∷ []

abbrev synced : List Text
synced =
    triage_executed ∷ suspicious_false ∷ in_scope_true ∷ label_pending_validation ∷ utf8 "bug" ∷ []

sync_runs : sync_triage_labels github place labels result ≡ (synced, none)
unfolding sync_triage_labels utf8 take_off
sync_runs = refl

sync_triage_labels_lem_example :
    (contains synced triage_executed ≡ true)
    × (contains synced suspicious_true ≡ false)
    × (contains synced suspicious_false ≡ true)
    × (contains synced in_scope_true ≡ true)
    × (contains synced in_scope_false ≡ false)
    × (contains synced label_pending_validation ≡ true)
    × (contains synced label_rejected ≡ false)
    × ((x : Text) → contains all_labels x ≡ false → contains synced x ≡ contains labels x)
sync_triage_labels_lem_example =
    sync_triage_labels_lem github github_laws place labels synced result sync_runs

labels_agree_example :
    ((contains (triage_label_plan result).0 label_pending_validation ≡ true) ↔ (
      (triage_succeeded fake json settings issue (ok report)).0.status.phase ≡ pending_validation))
    × ((contains (triage_label_plan result).0 label_rejected ≡ true)
        ↔ ((triage_succeeded fake json settings issue (ok report)).0.status.phase ≡ rejected))
labels_agree_example = labels_agree fake json settings issue result report (refl, refl, refl) refl

abbrev surroundings : Surroundings (List Text)
surroundings = record {
  github = github;
  getenv = λ name. utf8 "token";
  write_log = λ w t. (w, none);
  marshal = λ r. r.comment_url;
  quoted = λ t. t;
}

finish_runs : finish_triage surroundings labels (utf8 "o/r") (utf8 "7") result ≡ (synced, none)
unfolding finish_triage post_triage_feedback issue_ref split_repo two_parts split_slash atoi
    unsigned_int scan_int post_to after_comment after_sync after_feedback logged write_termination
    sync_triage_labels utf8 take_off
finish_runs = refl

finish_triage-Finished_example : Finished surroundings labels synced (utf8 "o/r") (utf8 "7") result
finish_triage-Finished_example =
    finish_triage-Finished surroundings labels synced (utf8 "o/r") (utf8 "7") result finish_runs
