-- ===== src/Numbering/Examples.antt =====
-- Numbering on a short list.
use code_analyzer.Prelude.{
  ℕ, ◌-◌, ◌+◌, ◌<◌, ◌≡◌, ◌&&◌, refl, Option, none, some, List, [], ◌∷◌, map, leb, if◌then◌else◌,
  Pairs, arith, false,
}
use code_analyzer.Prelude.Text.{Text, codes, decimal}
use code_analyzer.Prelude.Sort.{sorted}
use code_analyzer.Entries.{Entry, Partition, main, below}
use code_analyzer.Numbering.{Old, number, numbering_record}
use code_analyzer.Numbering.Number.{num, negsuc}
use code_analyzer.Numbering.Rows.{DifferIfListed}
use code_analyzer.Numbering.Distinct.{number-DifferIfListed}

abbrev ascii_digit : ℕ → Option ℕ
ascii_digit c = if leb 48 c && leb c 57 then some (c - 48) else none

ascii_digit-digit : (d : ℕ) → d < 10 → ascii_digit (48 + d) ≡ some d
ascii_digit-digit d h = ground arith

abbrev entry : Partition → Text → Text → ℕ → Entry
entry partition anchor member line = record {
  cluster_id = [];
  anchor = anchor;
  path = codes "a.c";
  function = codes "f";
  family = codes "buffer";
  line_start = line;
  line_end = line;
  toe_module = [];
  partition = partition;
  level = [];
  level_basis = [];
  proposed_level = [];
  sfr = [];
  tools = [];
  members = member ∷ [];
  member_line_shas = codes "s" ∷ [];
  decisive_line_sha = codes "s";
  priority = 0;
  multi_engine = false;
  origin = codes "tool";
}

abbrev entries : List Entry
entries =
    entry main (codes "x") (codes "m1") 9
    ∷ entry main (codes "y") (codes "m2") 4
    ∷ entry below (codes "z") (codes "m3") 1
    ∷ entry main (codes "w") (codes "m4") 7
    ∷ []

abbrev previous : List Old
previous =
    numbering_record (entry main (codes "y") (codes "m9") 2, (codes "PV-0002", []))
    ∷ numbering_record (entry main (codes "q") (codes "m1") 2, (codes "PV-0007", []))
    ∷ []

numbers_kept_and_new :
    map (λ r. r.1) (number ascii_digit entries previous).0
    ≡ (codes "PV-0007", codes "fingerprint")
      ∷ (codes "PV-0002", codes "anchor")
      ∷ ([], [])
      ∷ (codes "PV-0008", codes "new")
      ∷ []
unfolding number numbering_record sorted decimal
numbers_kept_and_new = refl

reads_any_int : num ascii_digit (codes "PV- -1_0 ") ≡ negsuc 9
unfolding num
reads_any_int = refl

number-DifferIfListed_example : Pairs DifferIfListed (number ascii_digit entries previous).0
number-DifferIfListed_example = number-DifferIfListed ascii_digit ascii_digit-digit entries previous
