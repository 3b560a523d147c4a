-- ===== src/Views.antt =====
-- code_analyzer/evidence/findings.py: the unit that a finding row came from, and the view that it is
-- filed under. A row has its fields as `str` gives them, empty where they are absent.
pub mod Listed
use code_analyzer.Prelude.{
  ℕ, zero, suc, Bool, true, false, ◌&&◌, ◌||◌, not, List, [], ◌∷◌, ◌++◌, map, leb, ◌==◌,
  if◌then◌else◌, any, length, drop,
}
use code_analyzer.Prelude.Text.{Text, text_eq, is_empty, codes}
use code_analyzer.Risk.{starts_with}

pub record Row : Type 0 where
  pub canonical_path : Text
  pub rule_id : Text
  pub evidence_context : Text
  pub source_artifact : Text
  pub tool : Text

pub data ViewClass : Type 0 where
  finding diagnostic out_of_tree superseded : ViewClass

unfoldable pub noise_rules : List Text
noise_rules = map codes (
    "checkLibraryFunction" ∷ "checkLibraryNoReturn" ∷ "checkLibraryUseIgnore"
    ∷ "checkLibraryCheckType" ∷ "missingInclude" ∷ "missingIncludeSystem" ∷ "unmatchedSuppression"
    ∷ "checkersReport" ∷ "toomanyconfigs" ∷ "normalCheckLevelMaxBranches" ∷ "noValidConfiguration"
    ∷ [])

abbrev add_part : Bool → ℕ → List Text → List Text
add_part true c parts = [] ∷ parts
add_part false c [] = (c ∷ []) ∷ []
add_part false c (part ∷ parts) = (c ∷ part) ∷ parts

-- `split("/")`
abbrev pub split : Text → List Text
split [] = [] ∷ []
split (c ∷ s) = add_part (c == b'/') c (split s)

-- `"/".join(parts[:-1])`
abbrev pub join_init : List Text → Text
join_init [] = []
join_init (p ∷ []) = []
join_init (p ∷ q ∷ []) = p
join_init (p ∷ q ∷ r ∷ rest) = p ++ b'/' ∷ join_init (q ∷ r ∷ rest)

abbrev is_first : Text → List Text → Bool
is_first word [] = false
is_first word (part ∷ parts) = text_eq part word

-- `unit_of`
abbrev pub unit_of : Row → Text
unit_of row =
    let parts = split row.source_artifact in
    if leb 4 (length parts) && is_first (codes "tools") parts
    then join_init (drop 2 parts)
    else if leb 3 (length parts) && is_first (codes "llm") parts
    then join_init (drop 1 parts)
    else if is_empty row.source_artifact
    then row.tool
    else row.source_artifact

-- `in_tree`
abbrev pub in_tree : Text → Bool
in_tree path =
    not (is_empty path)
    && not (starts_with (codes "/") path)
    && not (starts_with (codes "../") path)
    && not (text_eq path (codes ".."))

abbrev pub ends_with : Text → Text → Bool
ends_with word [] = is_empty word
ends_with word (c ∷ s) = text_eq word (c ∷ s) || ends_with word s

abbrev pub is_noise : Text → Bool
is_noise rule = any (text_eq rule) noise_rules

-- `view_class`
abbrev pub view_class : Row → ViewClass
view_class row =
    if not (in_tree row.canonical_path)
    then out_of_tree
    else if is_noise row.rule_id
    then diagnostic
    else if ends_with (codes "/superseded") row.evidence_context
    then superseded
    else finding
