-- ===== src/Plan.antt =====
-- code_analyzer/llm/units.py: the plan of scan units over the indexed files, and the check of it.
-- A unit has here the fields of its identity, its extent and its symbol; its hashes, its risk tier
-- and the names that it refers to are left out.
pub mod Gaps
pub mod Complete
mod Examples
pub mod Lines
pub mod Identity
use code_analyzer.Prelude.{
  ℕ, ◌+◌, ◌-◌, Bool, true, false, ◌&&◌, ◌||◌, Option, none, some, List, [], ◌∷◌, ◌++◌, foldl, map,
  max, min, not, ltb, leb, ◌==◌, if◌then◌else◌, length, any, take,
}
use code_analyzer.Prelude.Sort.{sorted}
use code_analyzer.Prelude.Text.{Text, text_eq, text_lt, is_empty}
use code_analyzer.Units.{
  Kind, function, module_scope, raw_span, Symbol, Segment, segments_of, chunks,
}

pub record FileRecord : Type 0 where
  pub path : Text
  pub readable : Bool
  pub size : ℕ
  pub unparsed_from : Option ℕ
  pub functions : List Symbol
  pub language : Text
  pub is_header : Bool
  pub dead_spans : List (ℕ × ℕ)

-- `index["files"]`, a dict from paths to records.
abbrev pub Files : Type 0
Files = List (Text × FileRecord)

pub record ScanUnit : Type 0 where
  pub kind : Kind
  pub path : Text
  pub name : Text
  pub ordinal : ℕ
  pub language : Text
  pub is_header : Bool
  pub start_byte : ℕ
  pub end_byte : ℕ
  pub byte_length : ℕ
  pub line_start : ℕ
  pub line_end : ℕ
  pub signature : Text
  pub dead : Bool
  pub kr_style : Bool
  pub macro_header : Bool

-- The loop of `line_starts`, from `offset` on.
abbrev pub starts_from : ℕ → Text → List ℕ
starts_from offset [] = []
starts_from offset (c ∷ s) =
    (if c == 10 then (offset + 1) ∷ [] else []) ++ starts_from (offset + 1) s

-- `line_starts`
unfoldable pub line_starts : Text → List ℕ
line_starts text = 0 ∷ starts_from 0 text

-- `line_of`: `bisect_right` of a list in ascending order is the number of elements up to `offset`.
pub line_of : List ℕ → ℕ → ℕ
line_of [] offset = 0
line_of (start ∷ starts) offset = if leb start offset then 1 + line_of starts offset else 0

pub kind_eq : Kind → Kind → Bool
kind_eq function function = true
kind_eq module_scope module_scope = true
kind_eq raw_span raw_span = true
kind_eq _ _ = false

-- The dict `ordinals`, with 0 for a missing key.
abbrev pub Ordinals : Type 0
Ordinals = Kind → Text → ℕ

abbrev pub bump : Ordinals → Kind → Text → Ordinals
bump ordinals kind name k n =
    if kind_eq kind k && text_eq name n then ordinals kind name + 1 else ordinals k n

-- `_dead`
pub dead_at : FileRecord → ℕ → ℕ → Bool
dead_at r start end = any (λ (span : ℕ × ℕ). ltb start span.1 && ltb span.0 end) r.dead_spans

abbrev pub name_of : Option Symbol → Text
name_of none = []
name_of (some f) = f.name

-- `_unit`, for the ordinal that the dict holds
pub unit_of : FileRecord → List ℕ → ℕ → Kind → ℕ → ℕ → Option Symbol → ScanUnit
unit_of r starts ordinal kind start end symbol = record {
  kind = kind;
  path = r.path;
  name = name_of symbol;
  ordinal = ordinal;
  language = r.language;
  is_header = r.is_header;
  start_byte = start;
  end_byte = end;
  byte_length = end - start;
  line_start = line_of starts start;
  line_end = line_of starts (max (end - 1) start);
  signature = elim symbol [ none ↦ [] | some f ↦ f.signature ];
  dead = elim symbol [ none ↦ dead_at r start end | some f ↦ f.dead ];
  kr_style = elim symbol [ none ↦ false | some f ↦ f.kr_style ];
  macro_header = elim symbol [ none ↦ false | some f ↦ f.macro_header ];
}

-- The variables of the loops of `plan_units` within one file.
abbrev pub Planned : Type 0
Planned = List ScanUnit × Ordinals

module _ (r : FileRecord) (raw : Text) where
  -- The body of the innermost loop of `plan_units`.
  pub add_chunk : Segment → Planned → ℕ × ℕ → Planned
  add_chunk s (units, ordinals) (begin, stop) =
      let name = name_of s.symbol in
      (
        units ++ unit_of r (line_starts raw) (ordinals s.kind name) s.kind begin stop s.symbol ∷ [],
        bump ordinals s.kind name,
      )

  pub add_segment : Planned → Segment → Planned
  add_segment p s = foldl (add_chunk s) p (chunks raw s.start s.end s.kind)

  -- The part of the loop over the files that plans one file's text.
  pub add_text : List ScanUnit → List ScanUnit
  add_text units =
      (foldl add_segment (units, λ kind name. 0) (segments_of r.functions r.unparsed_from raw)).0

-- The body of the outer loop: a file that is not readable, or that cannot be read now, is skipped.
pub add_file : (Text → Option Text) → List ScanUnit → Text × FileRecord → List ScanUnit
add_file read units (path, r) =
    if r.readable
    then elim (read path) [ none ↦ units | some raw ↦ add_text r raw units ]
    else units

abbrev pub path_before : Text × FileRecord → Text × FileRecord → Bool
path_before a b = text_lt a.0 b.0

-- `plan_units`; `read` gives a path's bytes, or nothing where the system refuses them.
pub plan_units : (Text → Option Text) → Files → List ScanUnit
plan_units read files = foldl (add_file read) [] (sorted path_before files)

-- The list that `coverage_gaps` keeps for a path in `by_path`.
pub spans_at : Text → List ScanUnit → List (ℕ × ℕ)
spans_at path [] = []
spans_at path (u ∷ units) =
    let rest = spans_at path units in
    if text_eq u.path path then (u.start_byte, u.end_byte) ∷ rest else rest

-- The order of the tuples.
abbrev pub span_before : ℕ × ℕ → ℕ × ℕ → Bool
span_before (a, b) (c, d) = ltb a c || (a == c && ltb b d)

-- The variables of the inner loop of `coverage_gaps`.
pub record Scan : Type 0 where
  pub gaps : List (ℕ × ℕ)
  pub overlaps : List (ℕ × ℕ)
  pub cursor : ℕ

pub scan_span : Scan → ℕ × ℕ → Scan
scan_span s (start, end) = record {
  gaps = s.gaps ++ (if ltb s.cursor start then (s.cursor, start) ∷ [] else []);
  overlaps =
      s.overlaps
      ++ (if ltb s.cursor start
          then []
          else if ltb start s.cursor
          then (start, min s.cursor end) ∷ []
          else []);
  cursor = max s.cursor end;
}

pub scan_end : ℕ → Scan → Scan
scan_end size s = record s {
  gaps = s.gaps ++ (if ltb s.cursor size then (s.cursor, size) ∷ [] else []);
  overlaps = s.overlaps ++ (if ltb size s.cursor then (size, s.cursor) ∷ [] else []);
}

pub scan_spans : ℕ → List (ℕ × ℕ) → Scan
scan_spans size spans =
    scan_end size
      (foldl scan_span (record { gaps = []; overlaps = []; cursor = 0 }) (sorted span_before spans))

abbrev pub Problem : Type 0
Problem = Text × List (ℕ × ℕ) × List (ℕ × ℕ)

pub report : List ScanUnit → Files → List Problem
report units [] = []
report units ((path, r) ∷ rest) =
    let s = scan_spans r.size (spans_at path units) in
    let others = report units rest in
    if not r.readable || (is_empty s.gaps && is_empty s.overlaps)
    then others
    else (path, s.gaps, s.overlaps) ∷ others

-- `coverage_gaps`: what `problems` holds, path by path.
pub coverage_gaps : List ScanUnit → Files → List Problem
coverage_gaps units files = report units (sorted path_before files)
