-- ===== src/Coverage/Examples.antt =====
-- Two units, a result for one of them, and a result for no unit.
use code_analyzer.Prelude.{◌≡◌, refl, true, false, some, List, [], ◌∷◌}
use code_analyzer.Prelude.Text.{Text, codes}
use code_analyzer.Prelude.Dict.{lookup, insert}
use code_analyzer.Coverage.{
  PlannedUnit, ScanPlan, Result, Report, tally, report_of, coverage_report,
}
use code_analyzer.Coverage.Accounts.{Accounts, coverage_report-Accounts}

abbrev unit : Text → PlannedUnit
unit id = record {
  unit_id = id;
  path = codes "a.c";
  is_function = true;
  byte_length = 10;
  risk_tier = codes "high";
  low_confidence = false;
}

abbrev plan : ScanPlan
plan = record {
  units = unit (codes "u1") ∷ unit (codes "u2") ∷ [];
  files = record { readable = true; size = 30 } ∷ [];
}

abbrev results : List Result
results =
    record { unit_id = codes "u1"; producer = codes "p"; status = codes "completed" }
    ∷ record { unit_id = codes "u1"; producer = codes "q"; status = codes "failed" }
    ∷ record { unit_id = codes "u2"; producer = codes "p"; status = codes "timed_out" }
    ∷ record { unit_id = codes "u9"; producer = codes "p"; status = codes "completed" }
    ∷ []

abbrev report : Report
report = report_of plan (tally plan.units [] results)

reported : coverage_report plan [] results ≡ some report
unfolding coverage_report
reported = refl

timed_out_once : report.reasons.timed_out_units ≡ 1
unfolding report_of tally lookup insert
timed_out_once = refl

one_high :
    report.tiers
    ≡ (codes "critical", 0, 0)
      ∷ (codes "high", 2, 1)
      ∷ (codes "medium", 0, 0)
      ∷ (codes "low", 0, 0)
      ∷ []
unfolding report_of tally lookup insert
one_high = refl

coverage_report-Accounts_example : Accounts plan report
coverage_report-Accounts_example = coverage_report-Accounts plan [] results report reported
