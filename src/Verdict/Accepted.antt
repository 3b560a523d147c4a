-- ===== src/Verdict/Accepted.antt =====
-- What a verdict that is filed holds.
use code_analyzer.Prelude.{ℕ, ◌≤◌, ◌≡◌, true, false, Option, none, some, List, [], length, Has, ◌⊎◌}
use code_analyzer.Prelude.Text.{Text, codes, is_empty}
use code_analyzer.Schema.Values.{Float, Json, obj, Fields, get, text_of, in_unit, Digit}
use code_analyzer.Schema.{max_line}
use code_analyzer.Schema.Extract.{attempt}
use code_analyzer.Verdict.{
  max_rationale, max_remediation, Verdict, Judged, verdict, refused, is_refutation,
}

abbrev IfLine : Option ℕ → Type 0
IfLine none = Unit
IfLine (some n) = (1 ≤ n) × (n ≤ max_line)

module _ (round : Float → Float) where
  -- A verdict that may be filed under the candidate.
  pub record IsFit (candidate_id : Text) (v : Verdict) : Type 0 where
    pub candidate : v.candidate_id ≡ candidate_id
    pub confidence : (f : Float) × (in_unit f ≡ true) × (v.confidence ≡ round f)
    pub file : is_empty v.file ≡ false
    pub line : (1 ≤ v.line) × (v.line ≤ max_line)
    pub rationale : is_empty v.rationale ≡ false
    pub rationale_length : length v.rationale ≤ max_rationale
    pub remediation_length : length v.remediation ≤ max_remediation
    pub refuted : is_refutation v.label ≡ true → v.remediation ≡ []

  abbrev pub JudgedOk : Text → Judged → Type 0
  JudgedOk candidate_id (verdict v) = IsFit candidate_id v
  JudgedOk candidate_id (refused r) = Unit

  -- The object names no candidate but this one.
  abbrev pub NamesNoOther : Fields → Text → Type 0
  NamesNoOther value id =
      let echoed = text_of (get (codes "candidate_id") value) in
      (is_empty echoed ≡ true) ⊎ (echoed ≡ id)

  abbrev IsFrom : Fields → Text → Judged → Type 0
  IsFrom value id (verdict v) = NamesNoOther value id × IsFit id v
  IsFrom value id (refused r) = Unit

  module _ (unicode : ℕ → Digit) where
    module _ (float_of_text : Text → Option Float) where
      -- What the loop has found in some of the texts: a verdict is that of an object that one of
      -- them holds.
      abbrev Found : (Text → Option Json) → Text → List Text → Judged → Type 0
      Found loads id texts (refused r) = Unit
      Found loads id texts (verdict v) =
          (text : Text) × (value : Fields) × Has text texts
          × (attempt loads text ≡ some (obj value))
          × NamesNoOther value id
          × IsFit id v
