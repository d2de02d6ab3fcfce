-- ===== src/Fix/RunScenarios.antt =====
-- Runs of the fix worker in memory, and examples of the properties of whole runs.
use hal_agent_operator.Base.{
  Outcome, Text, [], ◌∷◌, ◌≡◌, ◌⊎◌, refl, arith, utf8, text_eq, if◌then◌else◌,
}
use hal_agent_operator.Fix.Config.{load_config}
use hal_agent_operator.Fix.Tools.{Tools}
use hal_agent_operator.Fix.Run.{main, exit}
use hal_agent_operator.Fix.Fake.{Box, box_tools, repaired}
use hal_agent_operator.Fix.Unpushed.{IsLocal, Tested, main-Tested}

abbrev empty_box : Box
empty_box = record { source = utf8 ""; pushes = 0; reports = [] }

abbrev good : Tools Box
good = box_tools (record { old = utf8 "+"; new = utf8 "-" } ∷ [])

abbrev bad : Tools Box
bad = box_tools (record { old = utf8 "+"; new = utf8 "*" } ∷ [])

-- Every variable is set.
abbrev getenv : Text → Text
getenv key = if text_eq key (utf8 "ISSUE_REPOSITORY") then utf8 "o/r" else utf8 "1"

abbrev fixed_box : Box
fixed_box = record { source = repaired; pushes = 1; reports = utf8 "url" ∷ [] }

-- The edit of the other model does not help: nothing is pushed, and the error is reported.
abbrev failed_box : Box
failed_box = record {
  source = utf8 "a*b";
  pushes = 0;
  reports = utf8 "verification go test failed: exit status 1" ∷ [];
}

bad-IsLocal : IsLocal bad (λ (w : Box). w.pushes)
bad-IsLocal = record {
  generates = λ w r. refl;
  makes_dir = λ w d. refl;
  writes = λ w p s. ground arith;
  clones = λ w d o. refl;
  checks_out = λ w d b. refl;
  tests = λ w d. refl;
}

main-Tested_example :
    ((main bad getenv empty_box).0.pushes ≡ 0)
    ⊎ ((x : Box × Outcome (Unit {0})) × Tested bad (load_config getenv).0 empty_box x
        × (main bad getenv empty_box ≡ exit bad (load_config getenv).0 x))
main-Tested_example = main-Tested bad (λ (w : Box). w.pushes) bad-IsLocal getenv empty_box
