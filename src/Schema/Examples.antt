-- ===== src/Schema/Examples.antt =====
-- Scanner findings on small responses.
use code_analyzer.Prelude.{
  ℕ, ◌+◌, ◌-◌, ◌≡◌, refl, ◌&&◌, none, [], ◌∷◌, leb, ◌==◌, if◌then◌else◌, All, String,
}
use code_analyzer.Prelude.Text.{Text, codes}
use code_analyzer.Schema.Values.{
  Json, null, str, obj, Fields, Digit, decimal_digit, digit_only, no_digit, field, end,
}
use code_analyzer.Schema.{
  ok, raised, severities, finding_categories, one_of, Finding, line_number, not_an_object,
  entries_range, line_range_of, accepted, check_confidence, check_cwe, check_span, validate_fields,
  validate, collect, range_value, respell, category_spellings, isdigit, to_int, line_text,
}
use code_analyzer.Schema.Extract.{drop_trailing_commas}
use code_analyzer.Schema.Accepted.{IsWellFormed, validate-IsWellFormed, collect-accounts}
use code_analyzer.Schema.Extract.Repair.{kept_of, kept_of-drop_trailing_commas}

-- The decimal digits of ASCII and the superscript two.
abbrev ascii : ℕ → Digit
ascii c =
    if leb 48 c && leb c 57
    then decimal_digit (c - 48)
    else if c == 0xb2
    then digit_only
    else no_digit

abbrev entry : String → Text → Fields → Fields
entry key value rest = field (codes key) (str value) rest

abbrev item : Text → Json
item line = obj (
    entry "file" (codes "a.c") (
      entry "message" (codes "overflow") (
        entry "category" (codes "Buffer")
          (entry "severity" (codes "HIGH") (entry "line" line end)))))

abbrev finding : Finding
finding = record {
  file = codes "a.c";
  message = codes "overflow";
  category = codes "buffer";
  severity = codes "high";
  line = 7;
  line_range = (7, 7);
  symbol = [];
  description = [];
  evidence = [];
  rule_id = [];
  cwe = none;
  confidence = none;
}

item-accepted : validate ascii (item (codes "7")) ≡ ok (accepted finding)
unfolding validate validate_fields check_span check_cwe check_confidence line_range_of entries_range
    line_number isdigit to_int category_spellings respell finding_categories severities one_of
    range_value line_text
item-accepted = refl

validate-IsWellFormed_example : IsWellFormed finding
validate-IsWellFormed_example = validate-IsWellFormed ascii (item (codes "7")) finding item-accepted

items-collected :
    collect ascii 0 (item (codes "7") ∷ null ∷ []) ≡ ok (finding ∷ [], (1, not_an_object) ∷ [])
unfolding collect validate validate_fields check_span check_cwe check_confidence line_range_of
    entries_range line_number isdigit to_int category_spellings respell finding_categories
    severities one_of range_value line_text
items-collected = refl

collect-accounts_example : All IsWellFormed (finding ∷ []) × (1 + 1 ≡ 2)
collect-accounts_example =
    collect-accounts ascii 0 (item (codes "7") ∷ null ∷ []) (finding ∷ []) ((1, not_an_object) ∷ [])
      items-collected

superscript-raised : validate ascii (item (0xb2 ∷ [])) ≡ raised
unfolding validate validate_fields check_span check_cwe check_confidence line_range_of entries_range
    line_number isdigit to_int category_spellings respell finding_categories severities one_of
    range_value line_text
superscript-raised = refl

kept_of-drop_trailing_commas_example :
    kept_of (drop_trailing_commas (codes "{\"a, ]\": [1, ]}")) ≡ kept_of (codes "{\"a, ]\": [1, ]}")
kept_of-drop_trailing_commas_example = kept_of-drop_trailing_commas (codes "{\"a, ]\": [1, ]}")
