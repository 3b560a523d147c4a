-- ===== src/Views/Listed.antt =====
-- Which rows the list shows.
use code_analyzer.Prelude.{◌≡◌, refl, Bool, true, false, not, if◌then◌else◌}
use code_analyzer.Prelude.Text.{codes}
use code_analyzer.Views.{
  Row, finding, diagnostic, out_of_tree, superseded, in_tree, is_noise, ends_with, view_class,
}

class_of :
    (a b c : Bool)
    → (if not a then out_of_tree else if b then diagnostic else if c then superseded else finding)
      ≡ finding
    → (a ≡ true) × (b ≡ false) × (c ≡ false)
class_of true false false e = (refl, refl, refl)
class_of true false true e = absurd (cc)
class_of true true c e = absurd (cc)
class_of false b c e = absurd (cc)

-- A row that is listed as a finding is about a path inside the scanned tree, is not the analyzer
-- talking about its configuration, and is not from a superseded attempt.
pub view_class-finding :
    (row : Row)
    → view_class row ≡ finding
    → (in_tree row.canonical_path ≡ true)
      × (is_noise row.rule_id ≡ false)
      × (ends_with (codes "/superseded") row.evidence_context ≡ false)
view_class-finding row e = class_of _ _ _ e
