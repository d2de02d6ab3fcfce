-- ===== src/Fix/Phases.antt =====
-- cmd/fix/main.go: what the parts of run have done where they end without an error.
use hal_agent_operator.Base.{
  Text, List, Option, none, some, Error, Result, ok, err, true, length, join_path, ◌≡◌, ◌≢◌, ◌≤◌,
  refl, arith, Outcome, Returned, after_attempt, after_lift, after_read, after_bind, after_require,
  after_perform, returns, pure-ok, perform-ok, lift-ok,
}
use hal_agent_operator.Fix.Config.{FixConfig}
use hal_agent_operator.Fix.Edits.{FileEdit, apply_edits}
use hal_agent_operator.Fix.Rewrites.{Rewrites}
use hal_agent_operator.Fix.Answers.{parse_edits}
use hal_agent_operator.Fix.Proposals.{parse_edits-Rewrites}
use hal_agent_operator.Fix.GoFiles.{list_go_files}
use hal_agent_operator.Fix.Tools.{Tools, TestRun}
use hal_agent_operator.Fix.Steps.{contains_path, locate_file, rewrite_file, settled, wrapping}
use hal_agent_operator.Fix.Run.{
  repo_dir, max_file_bytes, failed, baseline, locate, rewrite, valid_go, verdict, verify,
}

module _ {World : Type 0} (t : Tools World) (cfg : FixConfig) where
  failed-ok : (x : Option Error) {u : Unit {0}} → failed t x ≡ ok u → (e : Error) × (x ≡ some e)
  unfolding failed
  failed-ok none h = ground arith
  failed-ok (some e) h = (e, refl)

  -- The tests failed, and printed this.
  pub record Failing (w w' : World) (out : Text) : Type 0 where
    pub tested : TestRun
    pub reason : Error
    pub ran : t.go_test w (repo_dir cfg) ≡ (w', tested)
    pub fails : tested.error ≡ some reason
    pub printed : out ≡ tested.output

  pub baseline-Failing :
      {w w' : World} {out : Text} → Returned (baseline t (repo_dir cfg) w) w' out → Failing w w' out
  unfolding baseline
  baseline-Failing h = after_attempt _ _ h λ w1 tested ran h1. after_lift _ _ h1 λ u judged h2.
      let (reason, fails) = failed-ok tested.error (ground arith) in
      let (same, printed) = pure-ok _ h2 in
      record {
        tested = tested;
        reason = reason;
        ran = rw same ran;
        fails = fails;
        printed = printed;
      }

  locate_file-contains_path :
      (w : World) {w' : World} (tree : List Text) (out : Text) {path : Text}
      → Returned (locate_file t cfg tree out w) w' path
      → contains_path tree path ≡ true
  unfolding locate_file
  locate_file-contains_path w tree out h = after_bind _ _ h λ w1 raw asked h1.
      after_lift _ _ h1 λ p parsed h2. after_require _ _ _ h2 λ known h3. rw (pure-ok _ h3).1 known

  -- The file is one of those that the walk has listed.
  pub record Located (w w' : World) (path : Text) : Type 0 where
    pub tree : List Text
    pub listed : list_go_files (t.tree w (repo_dir cfg)) ≡ ok tree
    pub known : contains_path tree path ≡ true

  pub locate-Located :
      {w w' : World} (out : Text) {path : Text}
      → Returned (locate t cfg out w) w' path
      → Located w w' path
  unfolding locate
  locate-Located {w} out h = after_lift _ _ (after_read _ _ h) λ tree listed h1. record {
    tree = tree;
    listed = ground arith;
    known = locate_file-contains_path _ _ _ h1;
  }

  settled-ok :
      (x : Option (Outcome (List FileEdit))) {edits : List FileEdit}
      → settled x ≡ returns (ok edits)
      → x ≡ some (returns (ok edits))
  unfolding settled
  settled-ok none h = ground arith
  settled-ok (some o) h = ground arith

  -- The edits of some answer of the model make the new contents of the old.
  pub record Proposed (original fixed : Text) : Type 0 where
    pub answer : Text
    pub edits : List FileEdit
    pub parsed : parse_edits t.decoding answer ≡ some (returns (ok edits))
    pub rewritten : Rewrites original edits fixed
    pub changes : fixed ≢ original

  rewrite_file-Proposed :
      (w : World) {w' : World} (path out : Text) {original fixed : Text}
      → Returned (rewrite_file t cfg path original out w) w' fixed
      → Proposed original fixed
  unfolding rewrite_file
  rewrite_file-Proposed w path out {original = original} {fixed = fixed} h =
      after_bind _ _ h λ w1 raw asked h1. after_lift _ _ h1 λ edits read h2.
        let parsed = settled-ok _ read in
        let applied : apply_edits original edits ≡ ok fixed = ground (arith, (lift-ok _ h2).1) in
        let (_, r, c) = parse_edits-Rewrites t.decoding raw original fixed edits parsed applied in
        record { answer = raw; edits = edits; parsed = parsed; rewritten = r; changes = c }

  wrapping-ok :
      {A : Type 0} (what : Text) (x : Result A) {a : A}
      → wrapping what x ≡ returns (ok a)
      → x ≡ ok a
  wrapping-ok what (ok a) h = ground arith
  wrapping-ok what (err e) h = ground arith

  -- The file was not too large, its new contents are those of a proposal, and parse as Go.
  pub record Rewritten (w : World) (path fixed : Text) : Type 0 where
    pub original : Text
    pub stored : t.read_file w (join_path (repo_dir cfg) path) ≡ ok original
    pub small : length original ≤ max_file_bytes
    pub proposed : Proposed original fixed
    pub parses : t.parse_go path fixed ≡ none

  valid_go-none :
      (w : World) {w' : World} {path fixed : Text} {u : Unit {0}}
      → Returned (valid_go t path fixed w) w' u
      → t.parse_go path fixed ≡ none
  unfolding valid_go
  valid_go-none w h = ground (arith, perform-ok _ _ h)

  pub rewrite-Rewritten :
      {w w' : World} (out : Text) {path fixed : Text}
      → Returned (rewrite t cfg path out w) w' fixed
      → Rewritten w path fixed
  unfolding rewrite
  rewrite-Rewritten {w} out h = after_lift _ _ (after_read _ _ h) λ original stored h1.
      after_require _ _ _ h1 λ small h2. after_bind _ _ h2 λ w1 fixed proposed h3.
        after_bind _ _ h3 λ w2 u parses h4.
          let same = (pure-ok _ h4).1 in
          rw same (record {
            original = original;
            stored = wrapping-ok _ _ stored;
            small = ground arith;
            proposed = rewrite_file-Proposed _ _ _ proposed;
            parses = valid_go-none _ parses;
          })

  -- The new contents were written to the file, and the tests passed on it.
  pub record Verified (w w' : World) (path fixed : Text) : Type 0 where
    pub written : World
    pub tested : TestRun
    pub stored : t.write_file w (join_path (repo_dir cfg) path) fixed ≡ (written, none)
    pub ran : t.go_test written (repo_dir cfg) ≡ (w', tested)
    pub passes : tested.error ≡ none

  run_passes :
      {w' : World} (x : World × TestRun)
      → verdict t x ≡ (w', none)
      → (tested : TestRun) × (x ≡ (w', tested)) × (tested.error ≡ none)
  run_passes (w1, tested) h = (tested, ground arith, ground arith)

  pub verify-Verified :
      {w w' : World} {path fixed : Text} {u : Unit {0}}
      → Returned (verify t cfg path fixed w) w' u
      → Verified w w' path fixed
  unfolding verify
  verify-Verified h = after_perform _ _ _ h λ w1 stored h1.
      let (tested, ran, passes) = run_passes _ (perform-ok _ _ h1) in
      record { written = w1; tested = tested; stored = stored; ran = ran; passes = passes }
