-- ===== src/Fix/Scenarios.antt =====
-- Tests of the edits on a small file, and examples of the properties.
use hal_agent_operator.Base.{
  Text, List, [], ◌∷◌, ◌++◌, some, ok, utf8, ◌≡◌, ◌≢◌, refl, count, replace_once, strip_prefix, All,
  cut_first, arith,
}
use hal_agent_operator.Fix.Edits.{FileEdit, validate_edits, apply_edits}
use hal_agent_operator.Base.{Outcome, panics, returns}
use hal_agent_operator.Fix.Markers.{begin_mark, end_mark, parse_marker_edits}
use hal_agent_operator.Fix.Rewrites.{HasOld, Rewrites, apply_edits-Rewrites}
use hal_agent_operator.Fix.Blocks.{shared_stars, shared_stars_panic, parse_marker_edits_ends}
use hal_agent_operator.Fix.Print.{IsPlainEdit, print_edits}
use hal_agent_operator.Fix.RoundTrip.{parse_marker_edits-print_edits}
use hal_agent_operator.Base.{pos, text_eq, text_eq_iff, none, if◌then◌else◌}
use hal_agent_operator.Kube.{EnvVar}
use hal_agent_operator.Kube.Environment.{value_of, IsEnvironment}
use hal_agent_operator.Controller.{gemini_model}
use hal_agent_operator.Controller.Jobs.{fix_env}
use hal_agent_operator.Controller.Scenarios.{settings, issue}
use hal_agent_operator.Fix.Config.{load_config}
use hal_agent_operator.Fix.Environment.{IsPlainSetup, intended, load_config-fix_env}

abbrev file : Text
file = utf8 "a+b; c"

abbrev fixed : Text
fixed = utf8 "a-b; d"

abbrev edits : List FileEdit
edits =
    record { old = utf8 "a+b"; new = utf8 "a-b" } ∷ record { old = utf8 "c"; new = utf8 "d" } ∷ []

edits-HasOld : All HasOld edits
unfolding utf8
edits-HasOld = (λ e. ground arith, (λ e. ground arith, tt))

applied : apply_edits file edits ≡ ok fixed
unfolding utf8 apply_edits count replace_once cut_first
applied = refl

apply_edits-Rewrites_example : Rewrites file edits fixed × (fixed ≢ file)
apply_edits-Rewrites_example = (apply_edits-Rewrites file fixed edits edits-HasOld).0 applied

edits-IsPlain : All IsPlainEdit edits
unfolding utf8 strip_prefix
edits-IsPlain = ground arith

parse_marker_edits-print_edits_example :
    parse_marker_edits (print_edits edits) ≡ some (returns (validate_edits edits))
parse_marker_edits-print_edits_example = parse_marker_edits-print_edits edits edits-IsPlain

edits_valid : validate_edits edits ≡ ok edits
unfolding utf8 validate_edits
edits_valid = refl

parse_marker_edits_ends_example :
    (o : Outcome (List FileEdit)) × (parse_marker_edits (print_edits edits) ≡ some o)
parse_marker_edits_ends_example = parse_marker_edits_ends (print_edits edits)

-- A text that overlaps itself: it stands at two places, and is counted and replaced once.
abbrev braces : Text
braces = utf8 "}\n}\n}"

overlap_accepted :
    apply_edits braces (record { old = utf8 "}\n}"; new = utf8 "}" } ∷ []) ≡ ok (utf8 "}\n}")
unfolding utf8 apply_edits count replace_once cut_first
overlap_accepted = refl

abbrev answer_tail : Text
answer_tail = utf8 "x\n*** End Edit ***\n"

tail_found : cut_first end_mark answer_tail ≡ some (utf8 "x\n", utf8 "\n")
unfolding utf8 cut_first strip_prefix
tail_found = refl

shared_stars_panic_example :
    parse_marker_edits (begin_mark ++ (shared_stars ++ answer_tail)) ≡ some panics
shared_stars_panic_example = shared_stars_panic answer_tail (utf8 "x\n") (utf8 "\n") tail_found

-- An environment by its list of variables.
lookup : (Text → Text → Text) → List EnvVar → Text → Text
lookup secret [] name = []
lookup secret (v ∷ env) name =
    let rest = lookup secret env name in
    if text_eq v.name name then value_of (λ t. t) secret v.source else rest

lookup-unset :
    (secret : Text → Text → Text) (env : List EnvVar) (name : Text)
    → All (λ (v : EnvVar). v.name ≢ name) env
    → lookup secret env name ≡ []
unfolding lookup
lookup-unset secret [] name h = refl
lookup-unset secret (v ∷ env) name (n, h) =
    ground (arith, text_eq_iff v.name name, lookup-unset secret env name h)

abbrev some_secret : Text → Text → Text
some_secret name key = utf8 "s"

abbrev branch : Text
branch = utf8 "bugfix/issue-7-attempt-2"

getenv : Text → Text
unfolding lookup
getenv = lookup some_secret (fix_env settings issue (pos 2) branch)

unset : Text → Text
unset name = []

-- What the kubelet makes of a text, where it refers to no variable.
verbatim : Text → Text → Text
verbatim name t = t

getenv-IsEnvironment :
    IsEnvironment getenv unset verbatim some_secret (fix_env settings issue (pos 2) branch)
unfolding getenv lookup fix_env utf8 unset verbatim
getenv-IsEnvironment = record {
  provided = ground arith;
  others = λ name h. lookup-unset some_secret (fix_env settings issue (pos 2) branch) name h;
  plain = λ name t h. refl;
}

setup-IsPlainSetup : IsPlainSetup settings issue branch
unfolding utf8 gemini_model
setup-IsPlainSetup = record {
  repository = ground arith;
  model = ground arith;
  branch_name = ground arith;
  base_branch = ground arith;
}

load_config-fix_env_example :
    load_config getenv ≡ (intended settings verbatim some_secret issue 2 branch, none)
unfolding utf8 unset
load_config-fix_env_example =
    load_config-fix_env settings issue 2 branch getenv unset verbatim some_secret
      getenv-IsEnvironment refl setup-IsPlainSetup (omega arith) (λ e. ground arith)
      (λ e. ground arith) (λ e. ground arith) (λ e. ground arith)
