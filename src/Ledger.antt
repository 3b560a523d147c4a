-- ===== src/Ledger.antt =====
-- code_analyzer/evidence/workspace.py: the append-only ledger file, its writers and `reconcile`.
-- A record is its seq and what it says; the time of writing is left out. The JSON line of a record
-- has `width` bytes and one more.
pub mod Unique
pub mod Reconcile
mod Examples
use code_analyzer.Prelude.{
  ℕ, zero, suc, ◌+◌, max, Bool, true, false, Option, none, some, List, [], ◌∷◌, ◌++◌, map, ◌==◌,
  if◌then◌else◌, any, length, take, drop, get_elem?,
}
use code_analyzer.Prelude.Text.{Text, text_eq}

pub record Record (A : Type 0) : Type 0 where
  pub seq : ℕ
  pub says : A

-- A line of the file: a record that reads back, or bytes that do not, one more than `n`.
pub data Line (A : Type 0) : Type 0 where
  whole : Record A → Line A
  torn : (n : ℕ) → Line A

-- The lines that end in a newline, and what stands behind the last newline.
pub record File (A : Type 0) : Type 0 where
  pub lines : List (Line A)
  pub tail : Option (Line A)

-- A `Ledger` object: `_seq` and `_size`, which is -1 where there is no `_seq`.
pub data Writer : Type 0 where
  fresh : Writer
  knows : (seq size : ℕ) → Writer

-- Where a killed process stops: behind a newline, within a line, or in front of its newline.
pub data Cut : Type 0 where
  clean : Cut
  within : (n : ℕ) → Cut
  unended : Cut

module _ {A : Type 0} where
  abbrev pub record_of : Line A → List (Record A)
  record_of (whole r) = r ∷ []
  record_of (torn n) = []

  abbrev pub records_of : List (Line A) → List (Record A)
  records_of [] = []
  records_of (l ∷ lines) = record_of l ++ records_of lines

  abbrev pub tail_line : Option (Line A) → List (Line A)
  tail_line none = []
  tail_line (some l) = l ∷ []

  -- `read`
  abbrev pub read : File A → List (Record A)
  read file = records_of file.lines ++ records_of (tail_line file.tail)

  -- The highest seq, 0 where there is none.
  abbrev pub highest : List (Record A) → ℕ
  highest [] = 0
  highest (r ∷ rest) = max r.seq (highest rest)

  -- The records of one call, numbered from behind `seq`.
  abbrev pub numbered : ℕ → List A → List (Record A)
  numbered seq [] = []
  numbered seq (a ∷ rest) = record { seq = suc seq; says = a } ∷ numbered (suc seq) rest

  -- What is written behind the file's bytes; a last line without a newline gets one.
  abbrev pub grow : File A → List (Record A) → Option (Line A) → File A
  grow file written tail = record {
    lines = file.lines ++ tail_line file.tail ++ map whole written;
    tail = tail;
  }

  abbrev pub unended_of : Option (Record A) → Option (Line A)
  unended_of none = none
  unended_of (some r) = some (whole r)

  -- What a killed process leaves behind its last newline, of the records behind it.
  abbrev pub left_by : Cut → List (Record A) → Option (Line A)
  left_by clean rest = none
  left_by (within n) rest = some (torn n)
  left_by unended rest = unended_of (get_elem? rest 0)

module _ {A : Type 0} (width : Record A → ℕ) where
  abbrev pub line_bytes : Line A → ℕ
  line_bytes (whole r) = suc (width r)
  line_bytes (torn n) = suc n

  abbrev pub lines_bytes : List (Line A) → ℕ
  lines_bytes [] = 0
  lines_bytes (l ∷ lines) = suc (line_bytes l) + lines_bytes lines

  abbrev pub tail_bytes : Option (Line A) → ℕ
  tail_bytes none = 0
  tail_bytes (some l) = line_bytes l

  abbrev pub bytes : File A → ℕ
  bytes file = lines_bytes file.lines + tail_bytes file.tail

  -- The seq behind which a call numbers its records; it is read again where the file has changed.
  abbrev pub last_seq : Writer → File A → ℕ
  last_seq fresh file = highest (read file)
  last_seq (knows seq size) file = if bytes file == size then seq else highest (read file)

  -- `append_many`
  abbrev pub appended : Writer → List A → File A → File A
  appended writer entries file = grow file (numbered (last_seq writer file) entries) none

  abbrev pub append_many : Writer → List A → File A → Writer × File A
  append_many writer entries file = (
    knows (last_seq writer file + length entries) (bytes (appended writer entries file)),
    appended writer entries file,
  )

  -- `append`
  abbrev pub append_one : Writer → A → File A → Writer × File A
  append_one writer a file = append_many writer (a ∷ []) file

  -- The file after a process was killed in `append_many`, behind `n` whole lines.
  abbrev pub killed : Writer → List A → ℕ → Cut → File A → File A
  killed writer entries n cut file =
      let written = numbered (last_seq writer file) entries in
      grow file (take n written) (left_by cut (drop n written))

  -- What the writers, told apart by numbers, do one behind the other: the lock admits one at a time.
  pub data Step : Type 0 where
    call : (writer : ℕ) → List A → Step
    kill : (writer : ℕ) → List A → (n : ℕ) → Cut → Step

  pub record World : Type 0 where
    pub file : File A
    pub writers : ℕ → Writer

  abbrev pub set_writer : (ℕ → Writer) → ℕ → Writer → ℕ → Writer
  set_writer writers i w j = if j == i then w else writers j

  -- A killed writer is gone; its number may be another one's later.
  abbrev pub step : World → Step → World
  step world (call i entries) =
      let done = append_many (world.writers i) entries world.file in
      record { file = done.1; writers = set_writer world.writers i done.0 }
  step world (kill i entries n cut) = record {
    file = killed (world.writers i) entries n cut world.file;
    writers = set_writer world.writers i fresh;
  }

  -- An empty file, and writers that have not written.
  abbrev pub start : World
  start = record { file = record { lines = []; tail = none }; writers = λ _. fresh }

-- What a record says, as far as `reconcile` reads it.
pub data Event : Type 0 where
  call_started call_finished : Text → Event
  other : Text → Event

abbrev pub started_by : Event → List Text
started_by (call_started id) = id ∷ []
started_by _ = []

abbrev pub finishes : Text → Event → Bool
finishes id (call_finished j) = text_eq id j
finishes id _ = false

abbrev pub events : File Event → List Event
events file = map (λ r. r.says) (read file)

-- The ids of the calls that started, in the order of their records.
abbrev pub started : List Event → List Text
started [] = []
started (e ∷ rest) = started_by e ++ started rest

unfoldable pub unfinished : List Event → List Text → List Text
unfinished all [] = []
unfinished all (id ∷ ids) =
    let rest = unfinished all ids in if any (finishes id) all then rest else id ∷ rest

-- `reconcile` through one writer; the ids are those of the calls that it closes.
abbrev pub close_all :
    (width : Record Event → ℕ) → List Text → Writer × File Event → Writer × File Event
close_all width [] state = state
close_all width (id ∷ ids) (writer, file) =
    close_all width ids (append_one width writer (call_finished id) file)

abbrev pub reconcile :
    (width : Record Event → ℕ) → Writer → File Event → List Text × (Writer × File Event)
reconcile width writer file =
    let closed = unfinished (events file) (started (events file)) in
    (closed, close_all width closed (writer, file))
