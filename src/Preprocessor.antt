-- ===== src/Preprocessor.antt =====
-- llm/index.py, pass B: the preprocessor's directives, the arms of its conditionals, and the
-- dead spans, on the text that `_mask_source` returns.
use code_analyzer.Prelude.{
  ℕ, zero, suc, ◌+◌, ◌-◌, ◌||◌, ◌&&◌, Bool, true, false, not, Option, none, some, List, [], ◌∷◌,
  ◌++◌, map, foldl, max, ltb, leb, ◌==◌, if◌then◌else◌, length, get_elem?, take, drop, any,
}
use code_analyzer.Prelude.Text.{Text, codes, text_eq, is_space, lstrip, strip}
use code_analyzer.Prelude.Sort.{sorted}
use code_analyzer.Plan.{line_of}
use code_analyzer.Mask.{is_alnum, char_is, take_while, has_prefix}
use mathlib.Core.List.{reverse}
pub mod Lines
pub mod Arms
pub mod Spans
mod Examples

-- An item of `_directives`.
pub record Directive : Type 0 where
  kind : Text
  text : Text
  start : ℕ
  stop : ℕ

-- The line break behind the reversed text is spliced: a backslash ends its line.
unfoldable pub is_spliced : Text → Bool
is_spliced [] = false
is_spliced (c ∷ []) = c == 92
is_spliced (c ∷ d ∷ back) = if c == 13 then d == 92 else c == 92

-- The loop of `_logical_line_end` on the text from its offset on, with the text in front of it
-- reversed: how far it goes.
unfoldable pub logical_length : Text → Text → ℕ
unfolding is_spliced
logical_length [] back = 0
logical_length (c ∷ s) back =
    let rest = logical_length s (c ∷ back) in
    if c == 10 && not (is_spliced back) then 0 else suc rest

-- `_logical_line_end`
unfoldable pub logical_line_end : Text → ℕ → ℕ
unfolding logical_length
logical_line_end text offset =
    offset + logical_length (drop offset text) (reverse (take offset text))

-- The characters that may stand in front of a directive's `#`.
unfoldable pub is_indent : ℕ → Bool
is_indent c = c == 32 || c == 9 || c == 13 || c == 12 || c == 11

-- The group of `_DIRECTIVE_NAME`, a `#`, white space and a word, or "" where it does not match.
unfoldable pub directive_name : Text → Text
unfolding is_alnum take_while
directive_name text = take_while (λ c. is_alnum c || c == 95) (lstrip (drop 1 text))

unfoldable pub directive_from : Text → ℕ → ℕ → Directive
unfolding directive_name
directive_from masked cursor end =
    let text = take (end - cursor) (drop cursor masked) in
    record { kind = directive_name text; text = text; start = cursor; stop = end }

-- The directive on the line that begins at an offset.
unfoldable pub directive_at : Text → ℕ → Option Directive
unfolding is_indent take_while char_is directive_from logical_line_end
directive_at masked begin =
    let cursor = begin + length (take_while is_indent (drop begin masked)) in
    if char_is masked cursor 35
    then some (directive_from masked cursor (logical_line_end masked cursor))
    else none

-- The loop of `_directives`, with its variable `consumed`.
unfoldable pub directives_from : Text → List ℕ → ℕ → List Directive
unfolding directive_at
directives_from masked [] consumed = []
directives_from masked (begin ∷ starts) consumed =
    elim (if ltb begin consumed then none else directive_at masked begin) [
      | none ↦ directives_from masked starts consumed
      | some d ↦ d ∷ directives_from masked starts d.stop
    ]

-- `_directives`
unfoldable pub directives : Text → List ℕ → List Directive
unfolding directives_from
directives masked starts = directives_from masked starts 0

-- The dict that `_arm` returns.
pub record Arm : Type 0 where
  kind : Text
  condition : Text
  depth : ℕ
  start : ℕ
  body_start : ℕ
  body_end : ℕ
  line_start : ℕ
  line_end : ℕ
  dead : Bool
  parent_dead : Bool

unfoldable pub one_of : Text → List Text → Bool
one_of kind kinds = any (text_eq kind) kinds

-- `text.split(None, 1)[1]`, or nothing where the text is one word.
unfoldable pub behind_word : Text → Text
unfolding take_while
behind_word text =
    let line = lstrip text in lstrip (drop (length (take_while (λ c. not (is_space c)) line)) line)

-- `condition.lstrip("#")`
unfoldable pub strip_hashes : Text → Text
strip_hashes [] = []
strip_hashes (c ∷ s) = let rest = strip_hashes s in if c == 35 then rest else c ∷ s

-- The variable `condition` of `_arm`.
unfoldable pub condition_of : Directive → Text → Text
unfolding behind_word strip_hashes has_prefix
condition_of item kind =
    let condition = strip (behind_word item.text) in
    if not (text_eq kind []) && has_prefix (codes "# ") (lstrip item.text)
    then strip (strip_hashes condition)
    else condition

-- `condition.replace(" ", "")`
unfoldable pub without_blanks : Text → Text
without_blanks [] = []
without_blanks (c ∷ s) = let rest = without_blanks s in if c == 32 then rest else c ∷ rest

-- `_arm`
unfoldable pub arm_of : Directive → Text → ℕ → Bool → List ℕ → Arm
unfolding condition_of without_blanks one_of
arm_of item kind depth parent_dead starts = record {
  kind = kind;
  condition = condition_of item kind;
  depth = depth;
  start = item.start;
  body_start = item.stop;
  body_end = item.stop;
  line_start = line_of starts item.start;
  line_end = line_of starts item.stop;
  dead =
      parent_dead
      || (one_of kind (codes "if" ∷ codes "elif" ∷ [])
          && one_of (without_blanks (condition_of item kind)) (codes "0" ∷ codes "(0)" ∷ []));
  parent_dead = parent_dead;
}

-- The strings in the `problems` of `_conditional_arms`.
pub data Imbalance : Type 0 where
  unbalanced_endif unterminated_conditional : Imbalance

-- The variables of `_conditional_arms`. The dicts on `stack` are those of `arms`: an entry is
-- an arm's place in `arms`, the top of the stack first.
pub record Nesting : Type 0 where
  arms : List Arm
  stack : List ℕ
  problems : List Imbalance

-- `previous["body_end"] = ...` and `previous["line_end"] = ...` of the arm in one place.
unfoldable pub close_at : ℕ → ℕ → ℕ → List Arm → List Arm
close_at place stop line [] = []
close_at zero stop line (a ∷ arms) = record a { body_end = stop; line_end = line } ∷ arms
close_at (suc place) stop line (a ∷ arms) = a ∷ close_at place stop line arms

unfoldable pub flag_at : (Arm → Bool) → List Arm → ℕ → Bool
flag_at flag arms place = elim (get_elem? arms place) [ none ↦ false | some a ↦ flag a ]

-- The variable `parent_dead`.
unfoldable pub top_dead : List Arm → List ℕ → Bool
unfolding flag_at
top_dead arms [] = false
top_dead arms (top ∷ stack) = flag_at (λ a. a.dead) arms top

-- `#if`, `#ifdef` and `#ifndef`.
unfoldable pub open_arm : List ℕ → Nesting → Directive → Nesting
unfolding arm_of top_dead
open_arm starts st item = record st {
  arms = st.arms ++ arm_of item item.kind (length st.stack) (top_dead st.arms st.stack) starts ∷ [];
  stack = length st.arms ∷ st.stack;
}

-- `#elif`, `#else` and their kin, with the top of the stack and what is below it.
unfoldable pub next_arm : List ℕ → Nesting → Directive → ℕ → List ℕ → Nesting
unfolding arm_of flag_at close_at
next_arm starts st item top below =
    let parent_dead = flag_at (λ a. a.parent_dead) st.arms top in
    record st {
      arms =
          close_at top item.start (line_of starts (item.start - 1)) st.arms
          ++ arm_of item item.kind (length below) parent_dead starts ∷ [];
      stack = length st.arms ∷ below;
    }

-- `#endif`, with the stack.
unfoldable pub end_arm : List ℕ → Nesting → Directive → List ℕ → Nesting
unfolding close_at
end_arm starts st item [] = record st { problems = st.problems ++ unbalanced_endif ∷ [] }
end_arm starts st item (top ∷ below) = record st {
  arms = close_at top item.start (line_of starts (item.start - 1)) st.arms;
  stack = below;
}

abbrev opening_kinds : List Text
opening_kinds = codes "if" ∷ codes "ifdef" ∷ codes "ifndef" ∷ []

abbrev middle_kinds : List Text
middle_kinds = codes "elif" ∷ codes "elifdef" ∷ codes "elifndef" ∷ codes "else" ∷ []

-- The second and the third test of the loop, with the stack.
unfoldable pub middle_or_end : List ℕ → Nesting → Directive → List ℕ → Nesting
unfolding next_arm end_arm one_of
middle_or_end starts st item [] =
    if text_eq item.kind (codes "endif") then end_arm starts st item [] else st
middle_or_end starts st item (top ∷ below) =
    if one_of item.kind middle_kinds
    then next_arm starts st item top below
    else if text_eq item.kind (codes "endif")
    then end_arm starts st item (top ∷ below)
    else st

-- The body of the first loop of `_conditional_arms`.
unfoldable pub nest : List ℕ → Nesting → Directive → Nesting
unfolding open_arm middle_or_end one_of
nest starts st item =
    if one_of item.kind opening_kinds
    then open_arm starts st item
    else middle_or_end starts st item st.stack

-- The last loop of `_conditional_arms`, over the stack from its bottom.
unfoldable pub close_left : ℕ → List ℕ → List Arm → List ℕ → List Arm
unfolding close_at
close_left total starts arms [] = arms
close_left total starts arms (place ∷ places) =
    close_left total starts (close_at place total (line_of starts (total - 1)) arms) places

-- `_conditional_arms`
unfoldable pub conditional_arms : List Directive → ℕ → List ℕ → List Arm × List Imbalance
unfolding nest close_left
conditional_arms items total starts =
    let st = foldl (nest starts) (record { arms = []; stack = []; problems = [] }) items in
    (
      close_left total starts st.arms (reverse st.stack),
      st.problems ++ map (λ _. unterminated_conditional) st.stack,
    )

-- `_in_dead`
unfoldable pub in_dead : List Arm → ℕ → Bool
in_dead arms offset = any (λ a. a.dead && (leb a.body_start offset && ltb offset a.body_end)) arms

-- Python's order of pairs.
unfoldable pub span_lt : ℕ × ℕ → ℕ × ℕ → Bool
span_lt s t = ltb s.0 t.0 || (s.0 == t.0 && ltb s.1 t.1)

-- The end of the loop body of `_merge_spans`, where `merged[-1]` is the last span.
unfoldable pub join_span : List (ℕ × ℕ) → ℕ × ℕ → List (ℕ × ℕ)
join_span [] s = s ∷ []
join_span (m ∷ []) s = if leb s.0 m.1 then (m.0, max m.1 s.1) ∷ [] else m ∷ s ∷ []
join_span (m ∷ n ∷ merged) s = m ∷ join_span (n ∷ merged) s

-- The body of the loop of `_merge_spans`.
unfoldable pub merge_span : List (ℕ × ℕ) → ℕ × ℕ → List (ℕ × ℕ)
unfolding join_span
merge_span merged s = if leb s.1 s.0 then merged else join_span merged s

-- `_merge_spans`
unfoldable pub merge_spans : List (ℕ × ℕ) → List (ℕ × ℕ)
unfolding merge_span span_lt
merge_spans spans = foldl merge_span [] (sorted span_lt spans)

-- The comprehension that `StdlibParser.parse` passes to `_merge_spans`.
unfoldable pub dead_bodies : List Arm → List (ℕ × ℕ)
dead_bodies [] = []
dead_bodies (a ∷ arms) =
    let rest = dead_bodies arms in if a.dead then (a.body_start, a.body_end) ∷ rest else rest
