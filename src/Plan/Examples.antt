-- ===== src/Plan/Examples.antt =====
-- A small tree of files, and the theorems on it.
use code_analyzer.Prelude.{
  ◌≡◌, refl, true, false, Option, none, some, [], ◌∷◌, arith, if◌then◌else◌, Pairs,
}
use code_analyzer.Prelude.Sort.{sorted}
use code_analyzer.Prelude.Text.{Text, codes, text_eq}
use code_analyzer.Units.Examples.{source, f}
use code_analyzer.Plan.{
  FileRecord, Files, plan_units, coverage_gaps, scan_spans, scan_span, scan_end,
}
use code_analyzer.Plan.Gaps.{claims, claims-scan_spans}
use code_analyzer.Plan.Complete.{coverage_gaps-plan_units}
use code_analyzer.Plan.Identity.{Apart, plan_units-Apart}

claims-scan_spans_example : claims 2 ((1, 3) ∷ (0, 1) ∷ []) ≡ 1
unfolding scan_spans scan_end scan_span sorted
claims-scan_spans_example =
    claims-scan_spans 3 ((1, 3) ∷ (0, 1) ∷ []) 2 (record { no_gaps = refl; no_overlaps = refl })
      (omega arith)

abbrev record_of : Text → FileRecord
record_of path = record {
  path = path;
  readable = true;
  size = 20;
  unparsed_from = none;
  functions = f ∷ [];
  language = codes "c";
  is_header = false;
  dead_spans = [];
}

abbrev tree : Files
tree =
    (codes "b.c", record_of (codes "b.c"))
    ∷ (codes "a.c", record_of (codes "a.c"))
    ∷ (codes "gone.c", record (record_of (codes "gone.c")) { readable = false })
    ∷ []

abbrev read : Text → Option Text
read path = if text_eq path (codes "gone.c") then none else some source

coverage_gaps-plan_units_example : coverage_gaps (plan_units read tree) tree ≡ []
coverage_gaps-plan_units_example =
    coverage_gaps-plan_units read tree
      (
        (refl, λ e. (source, refl, refl)),
        ((refl, λ e. (source, refl, refl)), ((refl, λ e. absurd (cc)), tt)),
      )
      ((refl, (refl, tt)), ((refl, tt), (tt, tt)))

plan_units-Apart_example : Pairs Apart (plan_units read tree)
plan_units-Apart_example =
    plan_units-Apart read tree (refl, (refl, (refl, tt)))
      ((refl, (refl, tt)), ((refl, tt), (tt, tt)))
