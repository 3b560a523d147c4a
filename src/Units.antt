-- ===== src/Units.antt =====
-- code_analyzer/llm/units.py: the planning of scan units. A file's text is decoded as Latin-1, so
-- that a character index is a byte offset; here it is a list of code points.
pub mod Tiling
pub mod Segments
pub mod Absorb
pub mod Functions
pub mod Extents
pub mod Chunks
pub mod Examples
use code_analyzer.Prelude.{
  ℕ, zero, suc, ◌+◌, ◌-◌, ◌≡◌, Bool, true, false, ◌&&◌, ◌||◌, Option, none, some, List, [], ◌∷◌,
  ◌++◌, min, ltb, leb, ◌==◌, if◌then◌else◌, length, take, drop, foldl,
}
use code_analyzer.Prelude.Sort.{sorted}
use code_analyzer.Prelude.Text.{Text, strip, is_empty}

-- `UNIT_KINDS`
pub data Kind : Type 0 where
  function module_scope raw_span : Kind

-- A function that the parser found, with the fields that a scan unit takes from it.
pub record Symbol : Type 0 where
  pub name : Text
  pub start_byte : ℕ
  pub end_byte : ℕ
  pub signature : Text
  pub conditional : Text
  pub dead : Bool
  pub kr_style : Bool
  pub macro_header : Bool
  pub calls : List Text

pub record Segment : Type 0 where
  pub kind : Kind
  pub start : ℕ
  pub end : ℕ
  pub symbol : Option Symbol

-- `raw[start:end]`
abbrev pub slice : Text → ℕ → ℕ → Text
slice raw start end = take (end - start) (drop start raw)

abbrev pub starts_before : Symbol → Symbol → Bool
starts_before a b = ltb a.start_byte b.start_byte

abbrev pub module_scope_of : ℕ → ℕ → Segment
module_scope_of start end = record { kind = module_scope; start = start; end = end; symbol = none }

-- The body of the loop of `_segments`, on its variables `claimed` and `cursor`.
pub claim : ℕ → List Segment × ℕ → Symbol → List Segment × ℕ
claim limit (claimed, cursor) symbol =
    if ltb symbol.start_byte cursor
      || ltb limit symbol.end_byte
      || leb symbol.end_byte symbol.start_byte
    then (claimed, cursor)
    else (
      (claimed
            ++ (if ltb cursor symbol.start_byte
                then module_scope_of cursor symbol.start_byte ∷ []
                else []))
          ++ record {
            kind = function;
            start = symbol.start_byte;
            end = symbol.end_byte;
            symbol = some symbol;
          }
            ∷ [],
      symbol.end_byte,
    )

-- The variables of the loop of `_absorb_blank`.
pub record Absorbed : Type 0 where
  pub result : List Segment
  pub pending : Option ℕ

-- `result[-1][2] = end`
pub extend_last : ℕ → List Segment → List Segment
extend_last end [] = []
extend_last end (s ∷ []) = record s { end = end } ∷ []
extend_last end (s ∷ t ∷ rest) = s ∷ extend_last end (t ∷ rest)

abbrev is_none {ℓ} : {A : Type ℓ} → Option A → Bool
is_none none = true
is_none (some _) = false

abbrev or_else : Option ℕ → ℕ → ℕ
or_else none d = d
or_else (some n) d = n

-- `symbol is None and not raw[start:end].strip()`
pub is_blank : Text → Segment → Bool
is_blank raw s = is_none s.symbol && is_empty (strip (slice raw s.start s.end))

-- The body of the loop of `_absorb_blank`.
pub absorb : Text → Absorbed → Segment → Absorbed
absorb raw a s =
    if is_blank raw s
    then (if is_empty a.result
        then record a { pending = some (or_else a.pending s.start) }
        else record a { result = extend_last s.end a.result })
    else record {
      result = a.result ++ record s { start = or_else a.pending s.start } ∷ [];
      pending = none;
    }

pub finish_absorb : ℕ → Absorbed → List Segment
finish_absorb size a = elim a.pending [
  | none ↦ a.result
  | some pending ↦ a.result ++ module_scope_of pending size ∷ []
]

pub absorb_blank : List Segment → Text → ℕ → List Segment
absorb_blank segments raw size =
    finish_absorb size (foldl (absorb raw) (record { result = []; pending = none }) segments)

abbrev pub limit_of : Option ℕ → ℕ → ℕ
limit_of none size = size
limit_of (some unparsed) size = min unparsed size

-- What follows the loop of `_segments`: the tail up to `limit`, and the tail that was not parsed.
pub claim_rest : ℕ → ℕ → List Segment × ℕ → List Segment
claim_rest limit size (claimed, cursor) =
    let tail = if ltb cursor limit then claimed ++ module_scope_of cursor limit ∷ [] else claimed in
    let reached = if ltb cursor limit then limit else cursor in
    if ltb reached size
    then tail ++ record { kind = raw_span; start = reached; end = size; symbol = none } ∷ []
    else tail

pub claimed_of : List Symbol → Option ℕ → ℕ → List Segment
claimed_of functions unparsed size =
    let limit = limit_of unparsed size in
    claim_rest limit size (foldl (claim limit) ([], 0) (sorted starts_before functions))

-- `_segments`
pub segments_of : List Symbol → Option ℕ → Text → List Segment
segments_of functions unparsed raw =
    absorb_blank (claimed_of functions unparsed (length raw)) raw (length raw)

-- `MAX_UNIT_BYTES`
abbrev pub max_unit_bytes : ℕ
max_unit_bytes = 16384

-- `raw.rfind("\n", lo, lo + count)`, as the index relative to `lo`.
pub rfind_newline : Text → Option ℕ
rfind_newline [] = none
rfind_newline (c ∷ s) = elim (rfind_newline s) [
  | some i ↦ some (suc i)
  | none ↦ if c == 10 then some 0 else none
]

pub split_of : ℕ → Option ℕ → ℕ
split_of cursor none = cursor + max_unit_bytes
split_of cursor (some i) = if ltb 0 i then cursor + i + 1 else cursor + max_unit_bytes

-- Where one chunk ends: behind the last line break in reach, unless that is the first character.
pub split_at : Text → ℕ → ℕ
unfolding split_of
split_at raw cursor = split_of cursor (rfind_newline (slice raw cursor (cursor + max_unit_bytes)))

-- The loop of `_chunks`, from `cursor`. A round moves the cursor on, so that `end - cursor` rounds
-- are enough fuel.
pub chunk_loop : ℕ → Text → ℕ → ℕ → List (ℕ × ℕ)
chunk_loop zero raw cursor end = (cursor, end) ∷ []
chunk_loop (suc fuel) raw cursor end =
    let split = split_at raw cursor in
    let rest = chunk_loop fuel raw split end in
    if ltb max_unit_bytes (end - cursor) then (cursor, split) ∷ rest else (cursor, end) ∷ []

abbrev is_function : Kind → Bool
is_function function = true
is_function _ = false

-- `_chunks`
pub chunks : Text → ℕ → ℕ → Kind → List (ℕ × ℕ)
chunks raw start end kind =
    if is_function kind || leb (end - start) max_unit_bytes
    then (start, end) ∷ []
    else chunk_loop (end - start) raw start end
