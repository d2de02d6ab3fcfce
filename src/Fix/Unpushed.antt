-- ===== src/Fix/Unpushed.antt =====
-- cmd/fix/main.go: when the repository on GitHub is touched.
use hal_agent_operator.Base.{
  Text, List, Bool, true, false, Option, some, none, Error, Result, ok, err, ◌≡◌, ◌⊎◌, inl, inr,
  refl, ◌∙◌, returns, Act, Keeps, bind-Keeps, perform-Keeps, keeps, Outcome, panics, if◌then◌else◌,
  ℕ, ap, sym, utf8, attempt, bind-result, Returned, ◌>>=◌, ◌>>◌,
}
use hal_agent_operator.Gemini.Call.{Request, CallOptions, call}
use hal_agent_operator.Fix.Config.{FixConfig, load_config}
use hal_agent_operator.Fix.Tools.{Tools, TestRun, CloneOptions, FixJobResult}
use hal_agent_operator.Fix.Steps.{
  commit_and_push, open_pr, clone_repo, head_branch, checkout_new_branch, locate_file, rewrite_file,
}
use hal_agent_operator.Fix.Run.{
  repo_dir, prepare, baseline, locate, rewrite, valid_go, verdict, written, verify,
  write_termination, make_caches, run, fail_with, exit, started, main,
}
use hal_agent_operator.Fix.Phases.{
  Located, Rewritten, Verified, locate-Located, rewrite-Rewritten, verify-Verified,
}

-- Only a push and a new pull request reach the repository's remote.
pub record IsLocal {World Remote : Type 0} (t : Tools World) (remote : World → Remote)
    : Type 0 where
  pub generates : (w : World) (r : Request) → remote (t.genai.generate w r).0 ≡ remote w
  pub makes_dir : (w : World) (d : Text) → remote (t.make_dir w d).0 ≡ remote w
  pub writes : (w : World) (p s : Text) → remote (t.write_file w p s).0 ≡ remote w
  pub clones : (w : World) (d : Text) (o : CloneOptions) → remote (t.clone w d o).0 ≡ remote w
  pub checks_out : (w : World) (d b : Text) → remote (t.checkout_create w d b).0 ≡ remote w
  pub tests : (w : World) (d : Text) → remote (t.go_test w d).0 ≡ remote w

module _ {World : Type 0} (t : Tools World) where
  -- What is left of a run when the tests have passed: nothing is written but the report.
  abbrev pub publish : FixConfig → (base path : Text) → Act World (Unit {0})
  publish cfg base path = do
    commit_and_push t cfg (repo_dir cfg) path
    pr ← open_pr t cfg base
    let result : FixJobResult = record {
      pr_url = pr.0;
      pr_number = pr.1;
      branch = cfg.branch_name;
      attempt = cfg.attempt;
      error = utf8 "";
    }
    attempt (λ w. ((write_termination t w result).0, tt))

  -- The steps of a run from the world `w` up to the tests that passed, each in the world that the one
  -- before has left, and the outcome `x` of the run, which is that of publishing in the world that
  -- these tests have left.
  pub record Tested (cfg : FixConfig) (w : World) (x : World × Outcome (Unit {0})) : Type 0 where
    pub base : Text
    pub test_out : Text
    pub path : Text
    pub fixed : Text
    pub cloned : World
    pub tested : World
    pub located : World
    pub rewritten : World
    pub verified : World
    pub prepared : Returned (prepare t cfg w) cloned base
    pub failing : Returned (baseline t (repo_dir cfg) cloned) tested test_out
    pub chosen : Returned (locate t cfg test_out tested) located path
    pub target : Located t cfg tested located path
    pub proposed : Returned (rewrite t cfg path test_out located) rewritten fixed
    pub change : Rewritten t cfg located path fixed
    pub passing : Verified t cfg rewritten verified path fixed
    pub published : x ≡ publish cfg base path verified

module _ {World Remote : Type 0} (t : Tools World) (remote : World → Remote)
    (local : IsLocal t remote) where
  call-Keeps :
      (key model system user : Text) (opts : CallOptions)
      → Keeps remote (call t.genai key model system user opts)
  unfolding call
  call-Keeps key model system user opts = search (keeps, local.generates)

  choice-Keeps :
      {A : Type 0} (b : Bool) (m n : Act World A)
      → Keeps remote m
      → Keeps remote n
      → Keeps remote (if b then m else n)
  choice-Keeps true m n h k = h
  choice-Keeps false m n h k = k

  head_branch-Keeps : (dir : Text) → Keeps remote (head_branch t dir)
  unfolding head_branch
  head_branch-Keeps dir = search (keeps)

  clone_repo-Keeps : (cfg : FixConfig) (dir : Text) → Keeps remote (clone_repo t cfg dir)
  unfolding clone_repo
  clone_repo-Keeps cfg dir = search (keeps, local.clones, choice-Keeps, head_branch-Keeps)

  checkout_new_branch-Keeps : (dir b : Text) → Keeps remote (checkout_new_branch t dir b)
  unfolding checkout_new_branch
  checkout_new_branch-Keeps dir b = search (keeps, local.checks_out)

  make_caches-keeps : (cfg : FixConfig) (w : World) → remote (make_caches t cfg w) ≡ remote w
  unfolding make_caches
  make_caches-keeps cfg w =
      local.makes_dir _ _ ∙ local.makes_dir _ _ ∙ local.makes_dir _ _ ∙ local.makes_dir _ _

  prepare-Keeps : (cfg : FixConfig) → Keeps remote (prepare t cfg)
  unfolding prepare
  prepare-Keeps cfg =
      search
        (keeps, local.makes_dir, make_caches-keeps, clone_repo-Keeps, checkout_new_branch-Keeps)

  baseline-Keeps : (dir : Text) → Keeps remote (baseline t dir)
  unfolding baseline
  baseline-Keeps dir = search (keeps, local.tests)

  locate_file-Keeps :
      (cfg : FixConfig) (tree : List Text) (out : Text) → Keeps remote (locate_file t cfg tree out)
  unfolding locate_file
  locate_file-Keeps cfg tree out = search (keeps, call-Keeps)

  locate-Keeps : (cfg : FixConfig) (out : Text) → Keeps remote (locate t cfg out)
  unfolding locate
  locate-Keeps cfg out = search (keeps, locate_file-Keeps)

  rewrite_file-Keeps :
      (cfg : FixConfig) (path content out : Text)
      → Keeps remote (rewrite_file t cfg path content out)
  unfolding rewrite_file
  rewrite_file-Keeps cfg path content out = search (keeps, call-Keeps)

  valid_go-Keeps : (path fixed : Text) → Keeps remote (valid_go t path fixed)
  unfolding valid_go
  valid_go-Keeps path fixed = search (keeps)

  rewrite-Keeps : (cfg : FixConfig) (path out : Text) → Keeps remote (rewrite t cfg path out)
  unfolding rewrite
  rewrite-Keeps cfg path out = search (keeps, rewrite_file-Keeps, valid_go-Keeps) depth 8

  verdict-keeps : (x : World × TestRun) → remote (verdict t x).0 ≡ remote x.0
  verdict-keeps (w, r) = refl

  verify-Keeps : (cfg : FixConfig) (path fixed : Text) → Keeps remote (verify t cfg path fixed)
  unfolding verify
  verify-Keeps cfg path fixed =
      bind-Keeps remote _ _ (perform-Keeps remote _ _ (λ w. local.writes w _ _))
        λ u. perform-Keeps remote _ _ (λ w. verdict-keeps (t.go_test w _) ∙ local.tests w _)

  written-keeps : (w : World) (x : Result Text) → remote (written t w x).0 ≡ remote w
  written-keeps w (err e) = refl
  written-keeps w (ok bytes) = local.writes w _ _

  abbrev Guarded : FixConfig → World → World × Outcome (Unit {0}) → Type 0
  Guarded cfg w x = (remote x.0 ≡ remote w) ⊎ Tested t cfg w x

  -- A part that returned a value has kept the remote repository as it was.
  kept :
      {A : Type 0} {w w1 w2 : World} {a : A} (m : Act World A)
      → Keeps remote m
      → m w1 ≡ (w2, returns (ok a))
      → remote w1 ≡ remote w
      → remote w2 ≡ remote w
  kept {w1 = w1} m k e r = ap (λ x. remote x.0) (sym e) ∙ k.same w1 ∙ r

  run-Guarded : (cfg : FixConfig) (w : World) → Guarded cfg w (run t cfg w)
  unfolding run
  run-Guarded cfg w =
      let P = Guarded cfg w in
      let K1 = prepare-Keeps cfg in
      let K2 = baseline-Keeps (repo_dir cfg) in
      bind-result P _ _ w (λ o. inl (K1.same w))
        λ w1 base e1.
          let r1 = kept {w = w} _ K1 e1 refl in
          bind-result P _ _ w1 (λ o. inl (K2.same w1 ∙ r1))
            λ w2 out e2.
              let r2 = kept {w = w} _ K2 e2 r1 in
              let K3 = locate-Keeps cfg out in
              bind-result P _ _ w2 (λ o. inl (K3.same w2 ∙ r2))
                λ w3 path e3.
                  let r3 = kept {w = w} _ K3 e3 r2 in
                  let K4 = rewrite-Keeps cfg path out in
                  bind-result P _ _ w3 (λ o. inl (K4.same w3 ∙ r3))
                    λ w4 fixed e4.
                      let r4 = kept {w = w} _ K4 e4 r3 in
                      bind-result P _ _ w4 (λ o. inl ((verify-Keeps cfg path fixed).same w4 ∙ r4))
                        λ w5 u e5. inr (record {
                          base = base;
                          test_out = out;
                          path = path;
                          fixed = fixed;
                          cloned = w1;
                          tested = w2;
                          located = w3;
                          rewritten = w4;
                          verified = w5;
                          prepared = e1;
                          failing = e2;
                          chosen = e3;
                          target = locate-Located t cfg out e3;
                          proposed = e4;
                          change = rewrite-Rewritten t cfg out e4;
                          passing = verify-Verified t cfg e5;
                          published = refl;
                        })

  fail_with-keeps :
      (cfg : FixConfig) (e : Error) (w : World) → remote (fail_with t cfg e w).0 ≡ remote w
  unfolding fail_with write_termination
  fail_with-keeps cfg e w = written-keeps w _

  -- The remote repository is as it was, or the process ends as a run that was tested ends.
  abbrev Ended : FixConfig → World → World × ℕ → Type 0
  Ended cfg w y =
      (remote y.0 ≡ remote w)
      ⊎ ((x : World × Outcome (Unit {0})) × (Tested t cfg w x) × (y ≡ exit t cfg x))

  exit-Guarded :
      (cfg : FixConfig) (w : World) (x : World × Outcome (Unit {0}))
      → Guarded cfg w x
      → Ended cfg w (exit t cfg x)
  unfolding exit
  exit-Guarded cfg w x (inr tested) = inr (x, tested, refl)
  exit-Guarded cfg w (w1, panics) (inl k) = inl k
  exit-Guarded cfg w (w1, returns (ok u)) (inl k) = inl k
  exit-Guarded cfg w (w1, returns (err e)) (inl k) = inl (fail_with-keeps cfg e w1 ∙ k)

  started-Guarded : (x : FixConfig × Option Error) (w : World) → Ended x.0 w (started t x w)
  unfolding started
  started-Guarded (cfg, some e) w = inl (fail_with-keeps cfg e w)
  started-Guarded (cfg, none) w = exit-Guarded cfg w _ (run-Guarded cfg w)

  -- However the fix worker ends (also with an error or in a panic, and whatever the model and the
  -- tools answer), the remote repository is as it was before, unless this run has cloned it, seen its
  -- tests fail, changed a file that listGoFiles had listed, by the model's edits, into another text
  -- that parses, written that text to that file, and seen the tests pass: then the run goes on from
  -- the world that those tests have left with the commit, the push, the pull request and the report,
  -- and with nothing in between.
  -- That only a push and a new pull request change the remote repository is the condition.
  pub main-Tested :
      (getenv : Text → Text) (w : World)
      → (remote (main t getenv w).0 ≡ remote w)
        ⊎ ((x : World × Outcome (Unit {0})) × Tested t (load_config getenv).0 w x
            × (main t getenv w ≡ exit t (load_config getenv).0 x))
  unfolding main
  main-Tested getenv w = started-Guarded (load_config getenv) w
