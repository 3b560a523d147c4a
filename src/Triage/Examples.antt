-- ===== src/Triage/Examples.antt =====
-- Five rows of one file.
use code_analyzer.Prelude.{
  ℕ, ◌-◌, ◌≡◌, ◌&&◌, leb, if◌then◌else◌, refl, Option, none, some, List, [], ◌∷◌, map, All,
}
use code_analyzer.Prelude.Text.{Text, codes, text_eq}
use code_analyzer.Prelude.Sort.{sorted}
use code_analyzer.Numbering.Number.{int_of}
use code_analyzer.Triage.{Row, function_at, chains, cluster}
use code_analyzer.Triage.Chained.{IsClose, chains-IsClose}
use code_analyzer.Triage.Conserved.{count, finding_keys, member_keys, count-cluster}

abbrev ascii_digit : ℕ → Option ℕ
ascii_digit c = if leb 48 c && leb c 57 then some (c - 48) else none

abbrev row : Text → Text → Text → Row
row view line fingerprint = record {
  path = codes "a.c";
  function = codes "f";
  family = codes "buffer";
  rule_id = codes "r";
  cwe = codes "CWE-120";
  engine = codes "static";
  view_class = view;
  line = line;
  line_text_sha = [];
  tool = codes "t";
  fingerprint = fingerprint;
  call_id = [];
  unit_id = [];
}

abbrev rows : List Row
rows =
    row (codes "finding") (codes "12-14") (codes "c")
    ∷ row (codes "finding") (codes "4") (codes "a")
    ∷ row (codes "noise") (codes "5") (codes "x")
    ∷ row (codes "finding") (codes "7") (codes "b")
    ∷ row (codes "finding") [] (codes "d")
    ∷ []

abbrev same : Text → Text
same t = t

clusters_lines :
    map {B = ℕ × ℕ} (λ c. (c.line_start, c.line_end)) (cluster ascii_digit same 3 3 rows)
    ≡ (0, 0) ∷ (4, 7) ∷ (12, 12) ∷ []
unfolding cluster sorted int_of
clusters_lines = refl

innermost :
    function_at 5 [] ((1, 9, codes "outer") ∷ (4, 6, codes "inner") ∷ (7, 8, codes "later") ∷ [])
    ≡ codes "inner"
unfolding function_at
innermost = refl

count-cluster_example :
    count (λ k. text_eq k.0 (codes "b")) (member_keys (cluster ascii_digit same 3 3 rows))
    ≡ count (λ k. text_eq k.0 (codes "b")) (finding_keys rows)
count-cluster_example = count-cluster (λ k. text_eq k.0 (codes "b")) ascii_digit same 3 3 rows

chains-IsClose_example : All (IsClose ascii_digit 3 9) (chains ascii_digit 3 9 rows)
chains-IsClose_example = chains-IsClose ascii_digit 3 9 rows
