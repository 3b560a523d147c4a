-- ===== src/Verdict.antt =====
-- code_analyzer/harness/verdict.py: one verdict per candidate. `unicode` stands for the Unicode
-- database, `float_of_text` for `float` of a text, with none where it raises ValueError, and `round`
-- for rounding to three decimals.
pub mod Accepted
mod Examples
use code_analyzer.Prelude.{
  ℕ, zero, suc, ◌+◌, Bool, true, false, ◌&&◌, ◌||◌, not, Option, none, some, List, [], ◌∷◌, ◌++◌,
  map, ltb, ◌==◌, if◌then◌else◌, any, take, String,
}
use code_analyzer.Prelude.Text.{Text, text_eq, codes, strip, is_empty}
use code_analyzer.Schema.Values.{
  ℤ, pos, negsuc, Float, finite, Json, null, bool, int, real, str, arr, obj, Fields, get, text_of,
  in_unit, Digit,
}
use code_analyzer.Schema.{
  Outcome, ok, raised, ◌>>=◌, max_line, lower, line_number, float_of_int, respell,
}
use code_analyzer.Schema.Extract.{candidates, attempt}

-- `MAX_RATIONALE` and `MAX_REMEDIATION`
abbrev pub max_rationale : ℕ
max_rationale = 900

abbrev pub max_remediation : ℕ
max_remediation = 200

pub data Label : Type 0 where
  confirmed likely uncertain false_positive : Label

abbrev pub labels : List (Text × Label)
labels =
    (codes "confirmed", confirmed)
    ∷ (codes "likely", likely)
    ∷ (codes "uncertain", uncertain)
    ∷ (codes "false_positive", false_positive)
    ∷ (codes "false-positive", false_positive)
    ∷ (codes "false positive", false_positive)
    ∷ (codes "fp", false_positive)
    ∷ []

abbrev pub label_of : List (Text × Label) → Text → Option Label
label_of [] t = none
label_of ((word, label) ∷ rest) t = if text_eq word t then some label else label_of rest t

pub record Verdict : Type 0 where
  pub candidate_id : Text
  pub label : Label
  pub confidence : Float
  pub file : Text
  pub line : ℕ
  pub rationale : Text
  pub remediation : Text

pub data Refusal : Type 0 where
  empty_response no_object not_an_object : Refusal
  other_candidate : Text → Refusal
  no_label bad_confidence no_decisive_line not_a_line no_rationale : Refusal

pub data Judged : Type 0 where
  verdict : Verdict → Judged
  refused : Refusal → Judged

abbrev pub is_refutation : Label → Bool
is_refutation false_positive = true
is_refutation _ = false

-- The value of `decisive_line`, where it is an object.
abbrev pub fields_of : Option Json → Option Fields
fields_of (some (obj fields)) = some fields
fields_of _ = none

abbrev pub in_lines : ℤ → Option ℕ
in_lines (pos n) = if ltb n 1 || ltb max_line n then none else some n
in_lines (negsuc n) = none

abbrev pub line_in : Option ℤ → Option ℕ
line_in none = none
line_in (some n) = in_lines n

module _ (float_of_text : Text → Option Float) where
  -- `float(value)`, with none where it raises TypeError or ValueError; an integer that is too large
  -- raises OverflowError, which nothing catches.
  abbrev pub float_of : Option Json → Outcome (Option Float)
  float_of none = ok none
  float_of (some null) = ok none
  float_of (some (bool b)) = ok (some (finite false (if b then 1 else 0) 1))
  float_of (some (int n)) = float_of_int n >>= λ f. ok (some f)
  float_of (some (real f)) = ok (some f)
  float_of (some (str s)) = ok (float_of_text s)
  float_of (some (arr xs)) = ok none
  float_of (some (obj fields)) = ok none

module _ (round : Float → Float) where
  -- The end of `_validate`, from the rationale on.
  abbrev pub finish : Fields → Text → Label → Float → Text → ℕ → Judged
  finish value candidate_id label confidence file line =
      let rationale = text_of (get (codes "rationale") value) in
      let remediation = text_of (get (codes "remediation") value) in
      if is_empty rationale
      then refused no_rationale
      else verdict (record {
        candidate_id = candidate_id;
        label = label;
        confidence = round confidence;
        file = file;
        line = line;
        rationale = take max_rationale rationale;
        remediation = if is_refutation label then [] else take max_remediation remediation;
      })

  abbrev pub at_line : Fields → Text → Label → Float → Text → Option ℕ → Judged
  at_line value candidate_id label confidence file none = refused not_a_line
  at_line value candidate_id label confidence file (some line) =
      if is_empty file
      then refused not_a_line
      else finish value candidate_id label confidence file line

  module _ (unicode : ℕ → Digit) where
    abbrev pub read_line : Option Json → Outcome (Option ℤ)
    read_line none = ok none
    read_line (some v) = line_number unicode v

    abbrev pub at_decisive : Fields → Text → Label → Float → Option Fields → Outcome Judged
    at_decisive value candidate_id label confidence none = ok (refused no_decisive_line)
    at_decisive value candidate_id label confidence (some decisive) =
        read_line (get (codes "line") decisive) >>= λ n. ok (
          at_line value candidate_id label confidence (text_of (get (codes "file") decisive))
            (line_in n))

    abbrev pub with_confidence : Fields → Text → Label → Option Float → Outcome Judged
    with_confidence value candidate_id label none = ok (refused bad_confidence)
    with_confidence value candidate_id label (some f) =
        if in_unit f
        then at_decisive value candidate_id label f (fields_of (get (codes "decisive_line") value))
        else ok (refused bad_confidence)

    module _ (float_of_text : Text → Option Float) where
      abbrev pub with_label : Fields → Text → Option Label → Outcome Judged
      with_label value candidate_id none = ok (refused no_label)
      with_label value candidate_id (some label) =
          float_of float_of_text (get (codes "confidence") value)
          >>= with_confidence value candidate_id label

      -- `_validate`
      abbrev pub judge : Fields → Text → Outcome Judged
      judge value candidate_id =
          let echoed = text_of (get (codes "candidate_id") value) in
          if not (is_empty echoed) && not (text_eq echoed candidate_id)
          then ok (refused (other_candidate echoed))
          else with_label value candidate_id
              (label_of labels (lower (text_of (get (codes "verdict") value))))

      abbrev pub judge_value : Text → Json → Outcome Judged
      judge_value candidate_id (obj fields) = judge fields candidate_id
      judge_value candidate_id _ = ok (refused not_an_object)

      module _ (loads : Text → Option Json) where
        abbrev pub or_refusal : Option Refusal → Refusal → Refusal
        or_refusal (some r) later = r
        or_refusal none later = later

        -- The loop of `parse_verdict` over the candidates of the response, with its `fallback`.

        pub first_verdict : Text → Option Refusal → List Text → Outcome Judged
        first_verdict candidate_id fallback [] = ok (refused (or_refusal fallback no_object))
        first_verdict candidate_id fallback (text ∷ rest) = elim (attempt loads text) [
          | none ↦ first_verdict candidate_id fallback rest
          | some value ↦ judge_value candidate_id value >>= elim [
            | verdict v ↦ ok (verdict v)
            | refused r ↦ first_verdict candidate_id (some (or_refusal fallback r)) rest
          ]
        ]

-- `parse_verdict`
pub parse_verdict :
    (round : Float → Float) (unicode : ℕ → Digit) (float_of_text : Text → Option Float)
    (loads : Text → Option Json) (fenced : Text → List Text) (unopened : Text → Text)
    → Text
    → (candidate_id : Text) → Outcome Judged
parse_verdict round unicode float_of_text loads fenced unopened text candidate_id =
    if is_empty (strip text)
    then ok (refused empty_response)
    else first_verdict round unicode float_of_text loads candidate_id none
        (candidates fenced unopened text)
