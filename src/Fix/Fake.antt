-- ===== src/Fix/Fake.antt =====
-- A fix worker in memory: one source file, whose tests pass once it is repaired.
use hal_agent_operator.Base.{
  ℕ, pos, Text, List, ◌∷◌, ◌++◌, Option, none, some, Error, Result, ok, err, failure, utf8, text_eq,
  quote, if◌then◌else◌,
}
use hal_agent_operator.Gemini.Call.{Request}
use hal_agent_operator.Fix.Edits.{FileEdit}
use hal_agent_operator.Fix.Print.{print_edits}
use hal_agent_operator.Fix.GoFiles.{Node, Entries}
use hal_agent_operator.Fix.Tools.{Tools, TestRun}

pub record Box : Type 0 where
  pub source : Text
  pub pushes : ℕ
  pub reports : List Text

abbrev pub broken_source : Text
broken_source = utf8 "a+b"

abbrev pub repaired : Text
repaired = utf8 "a-b"

abbrev pub report_path : Text
report_path = utf8 "/dev/termination-log"

abbrev pub store : Box → Text → Text → Box × Option Error
store w path content =
    if text_eq path report_path
    then (record w { reports = content ∷ w.reports }, none)
    else (record w { source = content }, none)

abbrev pub test_box : Box → Text → Box × TestRun
test_box w dir = (
  w,
  record {
    output = utf8 "FAIL";
    error = if text_eq w.source repaired then none else some (failure (utf8 "exit status 1"));
  },
)

-- The model names the file, and then answers with these edits.
module _ (answer : List FileEdit) where
  abbrev pub reply : Box → Request → Box × Result Text
  reply w r = (
    w,
    ok (if text_eq r.response_mime_type (utf8 "text/plain") then print_edits answer else utf8 "{}"),
  )

  abbrev pub box_tools : Tools Box
  box_tools = record {
    genai = record { new_client = λ key. none; generate = reply };
    decoding = record {
      unmarshal_edits = λ s. err (failure (utf8 "no edits"));
      unmarshal_locate = λ s. ok (utf8 "a.go");
      quoted = quote;
    };
    marshal = λ r. ok (r.pr_url ++ r.error);
    make_dir = λ w d. (w, none);
    read_file = λ w p. ok w.source;
    write_file = store;
    tree = λ w d. ok (Node.dir (utf8 "repo") (Entries.entry (Node.file (utf8 "a.go")) Entries.end));
    clone = λ w d o. (record w { source = broken_source }, none);
    head = λ w d. ok (utf8 "main");
    worktree = λ w d. none;
    checkout_create = λ w d b. (w, none);
    add = λ w d p. (w, none);
    commit = λ w d m. (w, none);
    push = λ w d k. (record w { pushes = 1 }, none);
    go_test = test_box;
    parse_go = λ p s. none;
    create_pr = λ w k o n pr. (w, ok (utf8 "url", pos 5));
  }
