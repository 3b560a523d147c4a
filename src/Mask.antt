-- ===== src/Mask.antt =====
-- llm/index.py, pass A: `_mask_source` and the functions it calls. `source_text` decodes a
-- file as Latin-1, so a text holds code points below 256; `is_alnum` and `is_digit` are
-- `str.isalnum` and `str.isdigit` of those.
use code_analyzer.Prelude.{
  ℕ, zero, suc, ◌+◌, ◌-◌, ◌||◌, ◌&&◌, Bool, true, false, not, Option, none, some, List, [], ◌∷◌,
  ◌++◌, max, min, ltb, leb, ◌==◌, if◌then◌else◌, length, get_elem?, take, drop, any,
}
use code_analyzer.Prelude.Text.{Text, codes, text_eq, is_empty}
use mathlib.Core.List.{reverse}
pub mod Blank
pub mod Bounds
pub mod Source
mod Examples

-- The entries that `_mask_source` and its helpers append to `problems`.
pub data Problem : Type 0 where
  unterminated_block_comment unterminated_raw_string unterminated_literal : Problem

unfoldable pub is_digit : ℕ → Bool
is_digit c = (leb 48 c && leb c 57) || c == 0xb2 || c == 0xb3 || c == 0xb9

unfoldable pub is_alnum : ℕ → Bool
unfolding is_digit
is_alnum c =
    is_digit c
    || (leb 65 c && leb c 90)
    || (leb 97 c && leb c 122)
    || c == 0xaa
    || c == 0xb5
    || c == 0xba
    || (leb 0xbc c && leb c 0xbe)
    || (leb 0xc0 c && leb c 0xd6)
    || (leb 0xd8 c && leb c 0xf6)
    || (leb 0xf8 c && leb c 0xff)

-- `text[offset] == char`, false behind the end.
unfoldable pub char_is : Text → ℕ → ℕ → Bool
char_is text offset char = elim (get_elem? text offset) [ none ↦ false | some c ↦ c == char ]

-- The longest prefix whose characters pass the test.
unfoldable pub take_while : (ℕ → Bool) → Text → Text
take_while p [] = []
take_while p (c ∷ s) = let rest = take_while p s in if p c then c ∷ rest else []

unfoldable pub has_prefix : Text → Text → Bool
has_prefix [] s = true
has_prefix (p ∷ ps) [] = false
has_prefix (p ∷ ps) (c ∷ s) = p == c && has_prefix ps s

-- `str.find` from the start, `none` for -1.
unfoldable pub find : Text → Text → Option ℕ
unfolding has_prefix
find pattern [] = if is_empty pattern then some 0 else none
find pattern (c ∷ s) =
    let rest = find pattern s in
    if has_prefix pattern (c ∷ s) then some 0 else elim rest [ none ↦ none | some i ↦ some (suc i) ]

-- `text.find(pattern, offset)`
unfoldable pub find_from : Text → ℕ → Text → Option ℕ
unfolding find
find_from pattern offset text = elim (find pattern (drop offset text)) [
  | none ↦ none
  | some i ↦ some (offset + i)
]

-- What `_blank` puts in place of a character.
unfoldable pub blanked : ℕ → ℕ
blanked c = if c == 10 then c else 32

-- `_blank`
unfoldable pub blank : ℕ → ℕ → Text → Text
unfolding blanked
blank start zero chars = chars
blank start (suc end) [] = []
blank zero (suc end) (c ∷ chars) = blanked c ∷ blank 0 end chars
blank (suc start) (suc end) (c ∷ chars) = c ∷ blank start end chars

-- The length of `\r?\n` where the text starts with it, otherwise 0.
unfoldable pub line_break : Text → ℕ
line_break [] = 0
line_break (c ∷ []) = if c == 10 then 1 else 0
line_break (c ∷ d ∷ s) = if c == 10 then 1 else if c == 13 && d == 10 then 2 else 0

-- The loop of `_line_comment_end` on the text from its offset on: how far it goes. The first
-- argument counts the characters of a spliced line break that are still to pass.
unfoldable pub comment_length : ℕ → Text → ℕ
unfolding line_break
comment_length skip [] = 0
comment_length (suc skip) (c ∷ s) = suc (comment_length skip s)
comment_length zero (c ∷ s) =
    let rest = comment_length (if c == 92 then line_break s else 0) s in
    if c == 10 then 0 else suc rest

-- `_line_comment_end`
unfoldable pub line_comment_end : Text → ℕ → ℕ
unfolding comment_length
line_comment_end text offset = offset + comment_length 0 (drop offset text)

-- `_RAW_STRING_PREFIX`
unfoldable pub raw_string_prefix : List Text
raw_string_prefix = codes "R" ∷ codes "u8R" ∷ codes "uR" ∷ codes "UR" ∷ codes "LR" ∷ []

-- The word that ends where the reversed text starts, for `_is_raw_string`.
unfoldable pub raw_word : Text → Bool
unfolding is_alnum take_while raw_string_prefix
raw_word [] = false
raw_word (c ∷ back) =
    c == 82
    && any (text_eq (reverse (c ∷ take_while (λ d. is_alnum d || d == 95) back))) raw_string_prefix

-- `_is_raw_string`
unfoldable pub is_raw_string : Text → ℕ → Bool
unfolding raw_word
is_raw_string text offset = raw_word (reverse (take offset text))

-- `text[start].isdigit()` of the token's first character, the last one of the reversed token.
unfoldable pub starts_with_digit : Text → Bool
unfolding is_digit
starts_with_digit [] = false
starts_with_digit (c ∷ []) = is_digit c
starts_with_digit (c ∷ d ∷ s) = starts_with_digit (d ∷ s)

-- `_is_digit_separator`
unfoldable pub is_digit_separator : Text → ℕ → Bool
unfolding is_alnum take_while starts_with_digit
is_digit_separator text offset = elim (get_elem? text (offset + 1)) [
  | none ↦ false
  | some after ↦
      (is_alnum after || after == 95)
      && starts_with_digit (
          take_while (λ d. is_alnum d || d == 95 || d == 46 || d == 39)
            (reverse (take offset text)))
]

-- One round of the loop of `_mask_source`: the span that it blanks (none where `stop` is not
-- above `begin`), the offset it goes on from, and what it appends to `problems`.
pub record Move : Type 0 where
  begin : ℕ
  stop : ℕ
  next : ℕ
  problem : Option Problem

unfoldable pub plain : ℕ → Move
plain offset = record { begin = offset; stop = offset; next = offset + 1; problem = none }

-- `_mask_raw_string` when it finds no end.
unfoldable pub raw_unterminated : Text → ℕ → Move
raw_unterminated text offset = record {
  begin = offset + 1;
  stop = length text;
  next = length text;
  problem = some unterminated_raw_string;
}

-- `_mask_raw_string` from the parenthesis on.
unfoldable pub raw_behind : Text → ℕ → ℕ → Move
unfolding find_from raw_unterminated
raw_behind text offset paren =
    let terminator = 41 ∷ take (paren - (offset + 1)) (drop (offset + 1) text) ++ 34 ∷ [] in
    elim (find_from terminator (paren + 1) text) [
      | none ↦ raw_unterminated text offset
      | some end ↦ record {
        begin = offset + 1;
        stop = end + length terminator - 1;
        next = end + length terminator;
        problem = none;
      }
    ]

-- `_mask_raw_string`
unfoldable pub mask_raw_string : Text → ℕ → Move
unfolding raw_behind
mask_raw_string text offset = elim (find_from (40 ∷ []) (offset + 1) text) [
  | none ↦ raw_unterminated text offset
  | some paren ↦
      if ltb 18 (paren - offset) then raw_unterminated text offset else raw_behind text offset paren
]

-- The loop of `_mask_literal` on the text from its cursor on: whether it meets the quote, and
-- the cursor there. `skip` is 1 behind a backslash.
unfoldable pub literal_end : ℕ → Text → ℕ → ℕ → Bool × ℕ
literal_end quote [] skip cursor = (false, cursor + skip)
literal_end quote (c ∷ s) (suc skip) cursor = literal_end quote s skip (suc cursor)
literal_end quote (c ∷ s) zero cursor =
    let rest = literal_end quote s (if c == 92 then 1 else 0) (suc cursor) in
    if c == 92
    then rest
    else if c == quote
    then (true, cursor)
    else if c == 10
    then (false, cursor)
    else rest

-- `_mask_literal` behind its loop.
unfoldable pub close_literal : Text → ℕ → Bool × ℕ → Move
close_literal text offset (true, cursor) = record {
  begin = offset + 1;
  stop = cursor;
  next = cursor + 1;
  problem = none;
}
close_literal text offset (false, cursor) = record {
  begin = offset + 1;
  stop = min cursor (length text);
  next = max (min cursor (length text)) (offset + 1);
  problem = some unterminated_literal;
}

-- `_mask_literal`, with the character at its offset.
unfoldable pub mask_literal : Text → ℕ → ℕ → Move
unfolding literal_end close_literal
mask_literal text offset quote =
    close_literal text offset (literal_end quote (drop (offset + 1) text) 0 (offset + 1))

unfoldable pub line_comment : Text → ℕ → Move
unfolding line_comment_end
line_comment text offset =
    let end = line_comment_end text (offset + 2) in
    record { begin = offset; stop = end; next = end; problem = none }

-- The `break` behind an unterminated comment goes to the end of the text.
unfoldable pub block_comment : Text → ℕ → Move
unfolding find_from
block_comment text offset = elim (find_from (42 ∷ 47 ∷ []) (offset + 2) text) [
  | none ↦ record {
    begin = offset;
    stop = length text;
    next = length text;
    problem = some unterminated_block_comment;
  }
  | some end ↦ record { begin = offset; stop = end + 2; next = end + 2; problem = none }
]

-- The body of the loop of `_mask_source` at a character.
unfoldable pub move_at : Text → ℕ → ℕ → Move
unfolding line_comment block_comment mask_raw_string mask_literal plain char_is is_digit_separator
    is_raw_string
move_at text offset char =
    if char == 47 && char_is text (offset + 1) 47
    then line_comment text offset
    else if char == 47 && char_is text (offset + 1) 42
    then block_comment text offset
    else if char == 34 && is_raw_string text offset
    then mask_raw_string text offset
    else if char == 34 || char == 39
    then if char == 39 && is_digit_separator text offset
      then plain offset
      else mask_literal text offset char
    else plain offset

-- The variables of `_mask_source`.
pub record Masking : Type 0 where
  chars : Text
  problems : List Problem
  offset : ℕ

unfoldable pub note : Option Problem → List Problem → List Problem
note none problems = problems
note (some p) problems = problems ++ p ∷ []

unfoldable pub apply : Masking → Move → Masking
unfolding blank note
apply st v = record {
  chars = blank v.begin v.stop st.chars;
  problems = note v.problem st.problems;
  offset = v.next;
}

-- The loop of `_mask_source`, `none` where the fuel is too little.
unfoldable pub mask_loop : Text → ℕ → Masking → Option Masking
unfolding apply move_at
mask_loop text zero st = elim (get_elem? text st.offset) [ none ↦ some st | some c ↦ none ]
mask_loop text (suc fuel) st = elim (get_elem? text st.offset) [
  | none ↦ some st
  | some c ↦ mask_loop text fuel (apply st (move_at text st.offset c))
]

-- What `_mask_source` returns of its variables.
unfoldable pub masked : Option Masking → Option (Text × List Problem)
masked none = none
masked (some st) = some (st.chars, st.problems)

-- `_mask_source`
unfoldable pub mask_source : Text → Option (Text × List Problem)
unfolding mask_loop masked
mask_source text =
    masked (mask_loop text (length text) (record { chars = text; problems = []; offset = 0 }))

-- `_blank_regions`
unfoldable pub blank_regions : Text → List (ℕ × ℕ) → Text
unfolding blank
blank_regions text [] = text
blank_regions text ((start, end) ∷ spans) = blank_regions (blank start end text) spans
