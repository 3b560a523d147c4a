-- ===== src/Status/Examples.antt =====
-- The status words on small runs.
use code_analyzer.Prelude.{◌≡◌, true, false, some, List, [], ◌∷◌}
use code_analyzer.Status.{completed, timed_out, not_applicable, disabled, ToolState, overall}
use code_analyzer.Status.Ladder.{IsClean, overall-zero}

abbrev tools : List ToolState
tools =
    record { requested = true; status = completed; valid_reports = 3 }
    ∷ record { requested = true; status = not_applicable; valid_reports = 0 }
    ∷ record { requested = false; status = timed_out; valid_reports = 0 }
    ∷ []

overall-zero_example :
    ((overall tools (some true) completed disabled true).1 ≡ 0
      → IsClean tools (some true) completed disabled true)
    × (IsClean tools (some true) completed disabled true
        → (overall tools (some true) completed disabled true).1 ≡ 0)
overall-zero_example = overall-zero tools (some true) completed disabled true
