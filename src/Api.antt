-- ===== src/Api.antt =====
-- api/v1alpha1/issueresolution_types.go: the IssueResolution resource, its phases and its status.
use hal_agent_operator.Base.{ℕ, ℤ, Text, Bool, Option, List, utf8}

-- `unset` is the empty string of a new object, and `unknown` any value that the code does not name.
pub data Phase : Type 0 where
  unset triage pending_validation ready executing pr_open done rejected failed : Phase
  unknown : Text → Phase

abbrev pub condition_triaged : Text
condition_triaged = utf8 "Triaged"

abbrev pub condition_awaiting_approval : Text
condition_awaiting_approval = utf8 "AwaitingApproval"

abbrev pub condition_executing : Text
condition_executing = utf8 "Executing"

abbrev pub condition_pr_open : Text
condition_pr_open = utf8 "PROpen"

abbrev pub condition_failed : Text
condition_failed = utf8 "Failed"

-- The times of the spec are seconds since the epoch.
pub record IssueResolutionSpec : Type 0 where
  pub repository : Text
  pub issue_number : ℤ  -- int32
  pub issue_url : Text
  pub author : Text
  pub author_association : Text
  pub title : Text
  pub body : Text
  pub labels : List Text
  pub created_at : Option ℕ
  pub approved : Bool
  pub approved_by : Text
  pub approved_at : Option ℕ
  pub max_fix_attempts : Option ℤ  -- *int32
  pub base_branch : Text

pub record TriageStatus : Type 0 where
  pub in_scope : Bool
  pub suspicious : Bool
  pub summary : Text
  pub model : Text
  pub parse_error : Bool

pub record PlanStatus : Type 0 where
  pub comment_url : Text
  pub summary : Text

pub record ExecutionStatus : Type 0 where
  pub attempt : ℤ  -- int32
  pub job_name : Text
  pub branch : Text
  pub pr_url : Text
  pub pr_number : ℤ  -- int32

pub data ConditionStatus : Type 0 where
  condition_true condition_false condition_unknown : ConditionStatus

-- metav1.Condition, without the transition time, which the library sets.
pub record Condition : Type 0 where
  pub kind : Text
  pub status : ConditionStatus
  pub reason : Text
  pub message : Text
  pub observed_generation : ℤ  -- int64

pub record IssueResolutionStatus : Type 0 where
  pub phase : Phase
  pub observed_generation : ℤ  -- int64
  pub triage : TriageStatus
  pub plan : PlanStatus
  pub execution : ExecutionStatus
  pub message : Text
  pub conditions : List Condition

-- Of the object's metadata: what the code reads.
pub record IssueResolution : Type 0 where
  pub name : Text
  pub namespace : Text
  pub generation : ℤ  -- int64
  pub spec : IssueResolutionSpec
  pub status : IssueResolutionStatus
