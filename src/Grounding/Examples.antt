-- ===== src/Grounding/Examples.antt =====
-- A claim about one line.
use code_analyzer.Prelude.{◌≡◌, refl, none, some, [], ◌∷◌, ◌≤◌, All, length}
use code_analyzer.Prelude.Text.{codes}
use code_analyzer.Schema.Values.{pos, int, present, obj, end}
use code_analyzer.Schema.{raised}
use code_analyzer.Grounding.{Shown, Claim, normalise, or_text, word, unhashable, ground_claim}
use code_analyzer.Grounding.Anchored.{IfBetween, IsQuoted, IsAllowed, ground_claim-anchored}

abbrev shown : Shown
shown = record {
  path = codes "a.c";
  lines = (7, codes "  int x = y;") ∷ [];
  function = [];
  function_span = none;
}

abbrev claim : Claim
claim = record {
  file = codes "a.c";
  path = [];
  line = some (int (pos 7));
  decisive_line = none;
  evidence_quote = codes "int  x = y";
  symbol = [];
  function = [];
  sfr = word (codes "FCS") ∷ [];
  level = [];
  category = [];
}

ground_claim-anchored_example :
    (or_text claim.file (or_text claim.path shown.path) ≡ shown.path)
    × IfBetween (present claim.line) shown.lines
    × IfBetween (present claim.decisive_line) shown.lines
    × (6 ≤ length (normalise claim.evidence_quote))
    × IsQuoted claim.evidence_quote shown.lines
    × All (IsAllowed (codes "FCS" ∷ [])) claim.sfr
    × All (IsAllowed []) claim.level
    × All (IsAllowed []) claim.category
unfolding normalise
ground_claim-anchored_example = ground_claim-anchored claim shown (codes "FCS" ∷ []) [] [] refl

-- A value that is an object is looked up in a set, which raises.
object_raises :
    ground_claim (record claim { level = unhashable (obj end) ∷ [] }) shown (codes "FCS" ∷ []) [] []
    ≡ raised
unfolding normalise
object_raises = refl
