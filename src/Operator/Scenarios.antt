-- ===== src/Operator/Scenarios.antt =====
-- The operator's process with a manager that notes its calls.
use hal_agent_operator.Base.{Text, List, [], ◌∷◌, none, utf8, ◌≡◌, refl, perform, ◌>>=◌, true}
use hal_agent_operator.Operator.Flags.{
  Setting, set_text, set_bool, parsed_flags, with_setting, with_bool, with_text, default_flags,
}
use hal_agent_operator.Operator.Options.{manager_options, metrics_options}
use hal_agent_operator.Operator.Process.{
  Manager, serve, setup_with_manager, registration, status, main,
}
use hal_agent_operator.Operator.Service.{Service, main-Service}

abbrev noting : Manager (List Text)
noting = record {
  new_manager = λ w o. (o.metrics.bind_address ∷ w, none);
  complete = λ w r. (r.named ∷ w, none);
  add_healthz_check = λ w n. (n ∷ w, none);
  add_readyz_check = λ w n. (n ∷ w, none);
  start = λ w. (utf8 "started" ∷ w, none);
}

abbrev settings : List Setting
settings = set_text (utf8 "gemini-model") (utf8 "m") ∷ set_bool (utf8 "leader-elect") true ∷ []

abbrev calls : List Text
calls = utf8 "started" ∷ utf8 "readyz" ∷ utf8 "healthz" ∷ utf8 "issueresolution" ∷ utf8 "0" ∷ []

served : main noting (λ name. []) settings [] ≡ (calls, 0)
unfolding main status serve ◌>>=◌ perform setup_with_manager registration utf8 manager_options
    metrics_options parsed_flags with_setting with_bool with_text default_flags
served = refl

main-Service_example : Service noting (λ name. []) settings [] calls
main-Service_example = main-Service noting (λ name. []) settings [] calls served
