-- ===== src/Verdict/Examples.antt =====
-- A verdict on a small response.
use code_analyzer.Prelude.{ℕ, false, List, [], String}
use code_analyzer.Prelude.Text.{Text, codes}
use code_analyzer.Schema.Values.{
  pos, Float, finite, Json, int, real, str, obj, Fields, field, end, Digit, no_digit,
}
use code_analyzer.Schema.Extract.{candidates}
use code_analyzer.Verdict.{Verdict, confirmed}

abbrev entry : String → Json → Fields → Fields
entry key value rest = field (codes key) value rest

abbrev response : Json
response = obj (
    entry "candidate_id" (str (codes "K1")) (
      entry "verdict" (str (codes "Confirmed")) (
        entry "confidence" (real (finite false 9 10)) (
          entry "rationale" (str (codes "no bound")) (
            entry "decisive_line"
              (obj (entry "file" (str (codes "a.c")) (entry "line" (int (pos 7)) end))) end)))))

abbrev judged : Verdict
judged = record {
  candidate_id = codes "K1";
  label = confirmed;
  confidence = finite false 9 10;
  file = codes "a.c";
  line = 7;
  rationale = codes "no bound";
  remediation = [];
}

abbrev same : Float → Float
same f = f

abbrev digits : ℕ → Digit
digits _ = no_digit

abbrev texts : List Text
texts = candidates (λ _. []) (λ t. t) (codes "x")
