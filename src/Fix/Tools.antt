-- ===== src/Fix/Tools.antt =====
-- cmd/fix/main.go: what the fix worker calls outside its own code, and the values it hands over.
use hal_agent_operator.Base.{ℤ, Text, Option, Error, Result}
use hal_agent_operator.Gemini.Call.{GenAi}
use hal_agent_operator.Fix.Answers.{Decoding}
use hal_agent_operator.Fix.GoFiles.{Node}

-- The worker's own copy of fixJobResult.
pub record FixJobResult : Type 0 where
  pub pr_url : Text
  pub pr_number : ℤ  -- int32
  pub branch : Text
  pub attempt : ℤ  -- int32
  pub error : Text

-- The fields of git.CloneOptions that the code sets; `branch` is the short name in ReferenceName.
pub record CloneOptions : Type 0 where
  pub url : Text
  pub token : Text
  pub branch : Option Text

pub record NewPullRequest : Type 0 where
  pub title : Text
  pub head : Text
  pub base : Text
  pub body : Text

-- What runGoTest returns: the output of both streams, and the error of the command.
pub record TestRun : Type 0 where
  pub output : Text
  pub error : Option Error

-- The file system, git, go test, go/parser, Gemini and GitHub. The repository that the code holds is
-- named by its directory; a call that changes something returns the new world, with its error.
pub record Tools (World : Type 0) : Type 0 where
  pub genai : GenAi World
  pub decoding : Decoding
  -- json.Marshal of the report
  pub marshal : FixJobResult → Result Text
  pub make_dir : World → Text → World × Option Error
  pub read_file : World → Text → Result Text
  pub write_file : World → Text → Text → World × Option Error
  -- what filepath.WalkDir finds at a directory
  pub tree : World → Text → Result Node
  pub clone : World → Text → CloneOptions → World × Option Error
  -- the short name of repo.Head
  pub head : World → Text → Result Text
  pub worktree : World → Text → Option Error
  pub checkout_create : World → Text → Text → World × Option Error
  pub add : World → Text → Text → World × Option Error
  pub commit : World → Text → Text → World × Option Error
  pub push : World → Text → Text → World × Option Error
  -- `go test ./...` in a directory
  pub go_test : World → Text → World × TestRun
  pub parse_go : Text → Text → Option Error
  -- the URL and the number of the new pull request
  pub create_pr : World → Text → Text → Text → NewPullRequest → World × Result (Text × ℤ)
