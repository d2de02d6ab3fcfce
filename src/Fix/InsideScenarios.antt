-- ===== src/Fix/InsideScenarios.antt =====
-- An example of where the worker's file lies.
use hal_agent_operator.Base.{
  [], refl, arith, utf8, ◌>>=◌, perform, attempt, pure, lift, read, require, trim_space, has_prefix,
  strip_prefix, trim_prefix, cut_first, contains_text, joined, join_path, clean_path, walk_path,
  step_path, split_slash, elements, Returned, IsDirectory, Within,
}
use hal_agent_operator.Gemini.Call.{call, generated, request}
use hal_agent_operator.Fix.Config.{FixConfig, load_config}
use hal_agent_operator.Fix.GoFiles.{list_go_files, walked, visit, visit_file, add_file}
use hal_agent_operator.Fix.Answers.{parse_locate_path, located_path, checked_path}
use hal_agent_operator.Fix.Steps.{locate_file, contains_path}
use hal_agent_operator.Fix.Run.{repo_dir, locate}
use hal_agent_operator.Fix.Inside.{locate-Within}
use hal_agent_operator.Fix.Fake.{Box, box_tools}

abbrev box : Box
box = record { source = utf8 "a+b"; pushes = 0; reports = [] }

abbrev cfg : FixConfig
cfg = record (load_config (λ name. utf8 "1")).0 { work_dir = utf8 "/workspace" }

located : Returned (locate (box_tools []) cfg [] box) box (utf8 "a.go")
unfolding locate utf8 ◌>>=◌ read lift list_go_files walked visit visit_file add_file locate_file
    call request generated perform attempt require pure trim_space parse_locate_path located_path
    checked_path has_prefix strip_prefix trim_prefix contains_text cut_first contains_path
located = refl

clone-IsDirectory : IsDirectory (repo_dir cfg)
unfolding utf8 has_prefix strip_prefix elements join_path clean_path joined walk_path step_path
    split_slash
clone-IsDirectory = (refl, λ e. ground arith)

locate-Within_example : Within (repo_dir cfg) (join_path (repo_dir cfg) (utf8 "a.go"))
locate-Within_example =
    locate-Within (box_tools []) cfg box box [] (utf8 "a.go") located clone-IsDirectory
