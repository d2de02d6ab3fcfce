-- ===== src/Operator/Process.antt =====
-- cmd/main.go: main behind its flags, and SetupWithManager of the controller.
use hal_agent_operator.Base.{
  ℕ, Text, List, Error, Option, Act, Outcome, panics, returns, ok, err, utf8, perform, ◌>>◌,
}
use hal_agent_operator.Controller.{Reconciler}
use hal_agent_operator.Operator.Flags.{Flags, Setting, default_flags, parsed_flags}
use hal_agent_operator.Operator.Options.{ManagerOptions, manager_options, reconciler}

-- What SetupWithManager registers: the kind that is reconciled, the kind of its children, a name.
pub record Registration : Type 0 where
  pub for_kind : Text
  pub owns_kind : Text
  pub named : Text
  pub complete : Reconciler

-- controller-runtime's manager.
pub record Manager (World : Type 0) : Type 0 where
  pub new_manager : World → ManagerOptions → World × Option Error
  pub complete : World → Registration → World × Option Error
  pub add_healthz_check : World → Text → World × Option Error
  pub add_readyz_check : World → Text → World × Option Error
  pub start : World → World × Option Error

unfoldable pub registration : Reconciler → Registration
registration r = record {
  for_kind = utf8 "IssueResolution";
  owns_kind = utf8 "Job";
  named = utf8 "issueresolution";
  complete = r;
}

module _ {World : Type 0} (m : Manager World) where
  unfoldable pub setup_with_manager : Reconciler → World → World × Option Error
  setup_with_manager r w = m.complete w (registration r)

  -- An error is logged, and ends the process.
  unfoldable pub serve : Flags → Act World (Unit {0})
  serve f = do
    perform (λ (e : Error). e) (λ w. m.new_manager w (manager_options f))
    perform (λ (e : Error). e) (setup_with_manager (reconciler f))
    perform (λ (e : Error). e) (λ w. m.add_healthz_check w (utf8 "healthz"))
    perform (λ (e : Error). e) (λ w. m.add_readyz_check w (utf8 "readyz"))
    perform (λ (e : Error). e) m.start

  unfoldable pub status : World × Outcome (Unit {0}) → World × ℕ
  status (w, panics) = (w, 2)
  status (w, returns (err e)) = (w, 1)
  status (w, returns (ok u)) = (w, 0)

  unfoldable pub main : (Text → Text) → List Setting → World → World × ℕ
  main getenv settings w = status (serve (parsed_flags settings (default_flags getenv)) w)
