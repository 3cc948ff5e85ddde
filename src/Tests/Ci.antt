-- ===== src/Tests/Ci.antt =====
-- The checks of a commit, one of them cancelled.
use gooseherd.Prelude.{◌≡◌, refl, none, some, List, [], ◌∷◌, map, String-Eq, Nat-Eq, includes}
use gooseherd.Pipeline.Ci.{CiCheckRun, aggregate_conclusions, ci_success, ci_failure}
use gooseherd.Pipeline.Ci.Classes.{class_of, conclusion_of, aggregate_conclusions-classes}

abbrev checks : List CiCheckRun
checks =
    record { name = "test"; status = "completed"; conclusion = some "success" }
    ∷ record { name = "deploy"; status = "completed"; conclusion = some "cancelled" }
    ∷ []

passed : aggregate_conclusions checks ≡ ci_success
unfolding aggregate_conclusions includes
passed = refl

-- A completed check without a conclusion.
fail_secure :
    aggregate_conclusions
      (record { name = "lint"; status = "completed"; conclusion = none } ∷ checks)
    ≡ ci_failure
unfolding aggregate_conclusions includes
fail_secure = refl

aggregate_conclusions-classes_example :
    aggregate_conclusions checks ≡ conclusion_of (map class_of checks)
aggregate_conclusions-classes_example = aggregate_conclusions-classes checks
