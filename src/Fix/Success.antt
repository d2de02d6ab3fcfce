-- ===== src/Fix/Success.antt =====
-- cmd/fix/main.go: what a run of the fix worker that ends without an error has done.
use hal_agent_operator.Base.{ℤ, Text, utf8, ◌≡◌, Returned, attempt}
use hal_agent_operator.Fix.Config.{FixConfig}
use hal_agent_operator.Fix.Tools.{Tools}
use hal_agent_operator.Fix.Steps.{commit_and_push, open_pr}
use hal_agent_operator.Fix.Run.{repo_dir, prepare, locate, rewrite, write_termination}
use hal_agent_operator.Fix.Phases.{Failing, Located, Rewritten, Verified}

module _ {World : Type 0} (t : Tools World) (cfg : FixConfig) where
  -- The steps of a run that fixed the issue, each in the world that the one before has left.
  pub record Fixed (w w' : World) : Type 0 where
    pub base : Text
    pub test_out : Text
    pub path : Text
    pub fixed : Text
    pub pr : Text × ℤ
    pub cloned : World
    pub tested : World
    pub located : World
    pub rewritten : World
    pub verified : World
    pub pushed : World
    pub opened : World
    pub prepared : Returned (prepare t cfg w) cloned base
    pub failing : Failing t cfg cloned tested test_out
    pub chosen : Returned (locate t cfg test_out tested) located path
    pub target : Located t cfg tested located path
    pub proposed : Returned (rewrite t cfg path test_out located) rewritten fixed
    pub change : Rewritten t cfg located path fixed
    pub passing : Verified t cfg rewritten verified path fixed
    pub push : Returned (commit_and_push t cfg (repo_dir cfg) path verified) pushed tt
    pub pull : Returned (open_pr t cfg base pushed) opened pr
    pub reported :
        w'
        ≡ (write_termination t opened (record {
          pr_url = pr.0;
          pr_number = pr.1;
          branch = cfg.branch_name;
          attempt = cfg.attempt;
          error = utf8 "";
        })).0
