-- ===== src/Entries/Examples.antt =====
-- Two clusters, one outside the TOE.
use code_analyzer.Prelude.{Option, none, some, List, [], ◌∷◌, if◌then◌else◌}
use code_analyzer.Prelude.Text.{Text, codes, text_eq}
use code_analyzer.Entries.{Row, Grade, Cluster}

abbrev row : Row
row = record {
  tool = codes "cppcheck";
  engine = [];
  fingerprint = codes "f";
  line_text_sha = codes "s";
  evidence_context = [];
  line = 3;
}

abbrev cluster : Text → Cluster
cluster path = record {
  id = codes "K";
  path = path;
  function = [];
  family = codes "buffer";
  line_start = 3;
  line_end = 4;
  members = row ∷ [];
}

abbrev grade : Row → Grade
grade r = record { level = codes "high"; basis = codes "analyst"; suggestion = [] }

abbrev toe : Text → Option Text
toe path = if text_eq path (codes "a.c") then some (codes "core") else none

abbrev clusters : List Cluster
clusters = cluster (codes "a.c") ∷ cluster (codes "b.c") ∷ []

abbrev no_links : Row → Text → List (Text × Text)
no_links r m = []

abbrev same : Text → Text
same t = t
