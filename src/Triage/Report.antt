-- ===== src/Triage/Report.antt =====
-- cmd/triage/main.go: triageResult.
use hal_agent_operator.Base.{Text, Bool}

pub record TriageResult : Type 0 where
  pub in_scope : Bool
  pub suspicious : Bool
  pub summary : Text
  pub model : Text
  pub parse_error : Bool
  pub comment_url : Text
  pub raw : Text
