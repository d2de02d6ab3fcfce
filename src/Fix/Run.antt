-- ===== src/Fix/Run.antt =====
-- cmd/fix/main.go: run, writeTermination, fail and main.
use hal_agent_operator.Base.{
  ℕ, pos, Text, ◌++◌, Option, none, some, Error, Result, ok, err, failure, error_text, utf8,
  decimal_ℕ, leb, length, join_path, Act, wrapped, Outcome, panics, returns, lift, attempt, perform,
  read, require, pure, ◌>>=◌, ◌>>◌,
}
use hal_agent_operator.Gemini.{truncate_runes}
use hal_agent_operator.Fix.Config.{FixConfig, load_config}
use hal_agent_operator.Fix.GoFiles.{list_go_files}
use hal_agent_operator.Fix.Tools.{Tools, TestRun, FixJobResult}
use hal_agent_operator.Fix.Steps.{
  clone_repo, checkout_new_branch, locate_file, rewrite_file, wrapping, commit_and_push, open_pr,
}

abbrev pub termination_log : Text
termination_log = utf8 "/dev/termination-log"

abbrev pub max_file_bytes : ℕ
max_file_bytes = 200000

abbrev pub repo_dir : FixConfig → Text
repo_dir cfg = join_path cfg.work_dir (utf8 "repo")

unfoldable pub compact : FixJobResult → FixJobResult
compact result = record result { error = truncate_runes result.error 1500 }

module _ {World : Type 0} (t : Tools World) where
  abbrev pub written : World → Result Text → World × Option Error
  written w (err e) = (w, some e)
  written w (ok bytes) = t.write_file w termination_log bytes

  unfoldable pub write_termination : World → FixJobResult → World × Option Error
  write_termination w result = written w (t.marshal (compact result))

  -- `_ = os.MkdirAll(d, 0o755)`
  abbrev pub make_cache : FixConfig → Text → World → World
  make_cache cfg name w = (t.make_dir w (join_path cfg.work_dir name)).0

  unfoldable pub make_caches : FixConfig → World → World
  make_caches cfg w = make_cache cfg (utf8 "tmp") (
      make_cache cfg (utf8 "go") (make_cache cfg (utf8 "gomod") (make_cache cfg (utf8 ".cache") w)))

  -- The directories, the clone and the new branch; the base branch of the pull request.
  unfoldable pub prepare : FixConfig → Act World Text
  prepare cfg = do
    perform (wrapped (utf8 "mkdir workdir")) (λ w. t.make_dir w cfg.work_dir)
    attempt (λ w. (make_caches cfg w, tt))
    base ← clone_repo t cfg (repo_dir cfg)
    checkout_new_branch t (repo_dir cfg) cfg.branch_name
    pure base

  unfoldable pub failed : Option Error → Result (Unit {0})
  failed (some e) = ok tt
  failed none =
      err (failure (utf8 "baseline go test passed; nothing to fix (unexpected for Job 2)"))

  -- The failing tests: what they printed.
  unfoldable pub baseline : Text → Act World Text
  baseline dir = do
    tested ← attempt (λ w. t.go_test w dir)
    lift (returns (failed tested.error))
    pure tested.output

  abbrev pub too_large : Text → Text → Error
  too_large path original = failure (
      utf8 "target file "
      ++ (path ++ (utf8 " too large (" ++ (decimal_ℕ (length original) ++ utf8 " bytes)"))))

  unfoldable pub valid_go : Text → Text → Act World (Unit {0})
  valid_go path fixed =
      perform (wrapped (utf8 "rewritten " ++ (path ++ utf8 " is not valid Go")))
        (λ w. (w, t.parse_go path fixed))

  -- The file that is to be changed: its path in the repository.
  unfoldable pub locate : FixConfig → Text → Act World Text
  locate cfg test_out = do
    root ← read (λ w. t.tree w (repo_dir cfg))
    tree ← lift (returns (list_go_files root))
    locate_file t cfg tree test_out

  -- The new contents of the file.
  unfoldable pub rewrite : FixConfig → Text → Text → Act World Text
  rewrite cfg path test_out = do
    content ← read (λ w. t.read_file w (join_path (repo_dir cfg) path))
    original ← lift (wrapping (utf8 "read target file " ++ path) content)
    require (leb (length original) max_file_bytes) (too_large path original)
    fixed ← rewrite_file t cfg path original test_out
    valid_go path fixed
    pure fixed

  abbrev pub verdict : World × TestRun → World × Option Error
  verdict (w, tested) = (w, tested.error)

  -- The tests on the file with its new contents.
  unfoldable pub verify : FixConfig → Text → Text → Act World (Unit {0})
  verify cfg path fixed = do
    perform (wrapped (utf8 "write fixed file"))
        (λ w. t.write_file w (join_path (repo_dir cfg) path) fixed)
    perform (wrapped (utf8 "verification go test failed"))
        (λ w. verdict (t.go_test w (repo_dir cfg)))

  -- A report that cannot be written is a warning.
  unfoldable pub run : FixConfig → Act World (Unit {0})
  run cfg = do
    base ← prepare cfg
    test_out ← baseline (repo_dir cfg)
    path ← locate cfg test_out
    fixed ← rewrite cfg path test_out
    verify cfg path fixed
    commit_and_push t cfg (repo_dir cfg) path
    pr ← open_pr t cfg base
    let result : FixJobResult = record {
      pr_url = pr.0;
      pr_number = pr.1;
      branch = cfg.branch_name;
      attempt = cfg.attempt;
      error = utf8 "";
    }
    attempt (λ w. ((write_termination w result).0, tt))

  -- fail: the world it leaves, and its exit status.
  unfoldable pub fail_with : FixConfig → Error → World → World × ℕ
  fail_with cfg e w =
      let result : FixJobResult = record {
        pr_url = utf8 "";
        pr_number = pos 0;
        branch = cfg.branch_name;
        attempt = cfg.attempt;
        error = error_text e;
      } in
      ((write_termination w result).0, 1)

  -- A panic ends the process with status 2.
  unfoldable pub exit : FixConfig → World × Outcome (Unit {0}) → World × ℕ
  exit cfg (w, panics) = (w, 2)
  exit cfg (w, returns (err e)) = fail_with cfg e w
  exit cfg (w, returns (ok u)) = (w, 0)

  unfoldable pub started : FixConfig × Option Error → World → World × ℕ
  started (cfg, some e) w = fail_with cfg e w
  started (cfg, none) w = exit cfg (run cfg w)

  unfoldable pub main : (Text → Text) → World → World × ℕ
  main getenv w = started (load_config getenv) w
