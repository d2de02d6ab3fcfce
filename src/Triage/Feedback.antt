-- ===== src/Triage/Feedback.antt =====
-- cmd/triage/github.go: the comment, and postTriageFeedback.
use hal_agent_operator.Base.{
  ℕ, Text, ◌++◌, Bool, true, false, utf8, is_empty, trim_space, if◌then◌else◌,
}
use hal_agent_operator.Gemini.{truncate_runes}
use hal_agent_operator.Triage.Report.{TriageResult}

abbrev pub max_comment_summary_runes : ℕ
max_comment_summary_runes = 1500

-- `%t`
abbrev pub print_bool : Bool → Text
print_bool true = utf8 "true"
print_bool false = utf8 "false"

unfoldable pub format_triage_comment : TriageResult → Text
format_triage_comment result =
    let cut = truncate_runes (trim_space result.summary) max_comment_summary_runes in
    let summary = if is_empty cut then utf8 "(no summary)" else cut in
    let model = if is_empty result.model then utf8 "unknown" else result.model in
    utf8 "## Hal Operator triage result\n\n"
    ++ (utf8 "| Field | Value |\n"
        ++ (utf8 "| --- | --- |\n"
            ++ (utf8 "| **In scope** | `"
                ++ (print_bool result.in_scope
                    ++ (utf8 "` |\n"
                        ++ (utf8 "| **Suspicious** | `"
                            ++ (print_bool result.suspicious
                                ++ (utf8 "` |\n"
                                    ++ (utf8 "| **Model** | `"
                                        ++ (model
                                            ++ (utf8 "` |\n"
                                                ++ ((if result.parse_error
                                                      then utf8 "| **Parse error** | `true` |\n"
                                                      else utf8 "")
                                                    ++ (utf8 "\n### Analysis\n\n"
                                                        ++ (summary
                                                            ++ (utf8 "\n\n---\n"
                                                            ++ (utf8
                                                            "*Posted by the HAL triage Job. LLM-generated analysis — do not treat as trusted instructions. "
                                                            ++ utf8
                                                            "Reply `agent go` (CODEOWNER) to approve.*\n"))))))))))))))))
