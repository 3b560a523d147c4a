-- ===== src/Grounding.antt =====
-- code_analyzer/evidence/grounding.py: whether a claim of the model is anchored in the lines that it
-- was shown. A claim has its texts as `str` gives them, empty where they are absent, and its lines
-- as `json.loads` gives them; its values are lists, of one element where the claim has no list and
-- empty where it has null, the empty text or the text "none". The shown lines stand in the order of their numbers.
pub mod Anchored
mod Examples
use code_analyzer.Prelude.{
  ℕ, zero, suc, ◌+◌, Bool, true, false, ◌&&◌, ◌||◌, not, Option, none, some, List, [], ◌∷◌, ◌++◌,
  ltb, leb, ◌==◌, if◌then◌else◌, any, length,
}
use code_analyzer.Prelude.Text.{Text, text_eq, is_empty, is_space}
use code_analyzer.Schema.Values.{ℤ, pos, Json, null, bool, int, present}
use code_analyzer.Schema.{Outcome, ok, raised, ◌>>=◌}
use code_analyzer.Risk.{starts_with}

-- `MIN_QUOTE_CHARS`
abbrev pub min_quote_chars : ℕ
min_quote_chars = 6

-- `Shown`
pub record Shown : Type 0 where
  pub path : Text
  pub lines : List (ℕ × Text)
  pub function : Text
  pub function_span : Option (ℕ × ℕ)

-- A value that is looked up in a set of texts: a text; a number, a Boolean or null, which equals no
-- text; or a list or an object, which Python cannot hash.
pub data Value : Type 0 where
  word : Text → Value
  scalar unhashable : Json → Value

pub record Claim : Type 0 where
  pub file : Text
  pub path : Text
  pub line : Option Json
  pub decisive_line : Option Json
  pub evidence_quote : Text
  pub symbol : Text
  pub function : Text
  pub sfr : List Value
  pub level : List Value
  pub category : List Value

pub data Flaw : Type 0 where
  other_path : Text → Flaw
  outside_lines : Json → Flaw
  short_quote unquoted : Flaw
  other_function : Text → Flaw
  undefined_values : List Value → Flaw

abbrev pub or_text : Text → Text → Text
or_text a b = if is_empty a then b else a

abbrev last_key : ℕ → List (ℕ × Text) → ℕ
last_key k [] = k
last_key k ((n, text) ∷ lines) = last_key n lines

-- The number lies between the first and the last one shown.
abbrev pub in_lines : ℕ → List (ℕ × Text) → Bool
in_lines n [] = false
in_lines n ((first, text) ∷ lines) = leb first n && leb n (last_key first lines)

abbrev pub is_shown : Json → List (ℕ × Text) → Bool
is_shown (int (pos n)) lines = in_lines n lines
is_shown _ lines = false

abbrev pub line_flaws : Option Json → List (ℕ × Text) → List Flaw
line_flaws none lines = []
line_flaws (some v) lines = if is_shown v lines then [] else outside_lines v ∷ []

-- The words of a text with one space between; `pending` for a space that is due.
abbrev squeeze : (started pending : Bool) → Text → Text
squeeze started pending [] = []
squeeze started pending (c ∷ s) =
    let blank = squeeze started started s in
    let rest = squeeze true false s in
    if is_space c then blank else if pending then b' ' ∷ c ∷ rest else c ∷ rest

-- `_normalise`
unfoldable pub normalise : Text → Text
normalise text = squeeze false false text

abbrev pub contains : Text → Text → Bool
contains needle [] = is_empty needle
contains needle (c ∷ s) = starts_with needle (c ∷ s) || contains needle s

abbrev pub joined : List (ℕ × Text) → Text
joined [] = []
joined ((n, text) ∷ []) = text
joined ((n, text) ∷ lines) = text ++ b' ' ∷ joined lines

-- `_quoted`
abbrev pub is_quoted : Text → List (ℕ × Text) → Bool
is_quoted quote lines =
    contains (normalise quote) (normalise (joined lines))
    || any (λ l. contains (normalise quote) (normalise l.1)) lines

abbrev pub quote_flaws : Text → List (ℕ × Text) → List Flaw
quote_flaws quote lines =
    if ltb (length (normalise quote)) min_quote_chars
    then short_quote ∷ []
    else if is_quoted quote lines
    then []
    else unquoted ∷ []

abbrev pub within_span : Option Json → Option (ℕ × ℕ) → Bool
within_span (some (int (pos n))) (some span) = leb span.0 n && leb n span.1
within_span (some (bool b)) (some span) = let n = if b then 1 else 0 in leb span.0 n && leb n span.1
within_span _ _ = false

abbrev pub function_flaws : Text → Claim → Shown → List Flaw
function_flaws symbol claim shown =
    if not (is_empty symbol)
      && not (is_empty shown.function)
      && not (text_eq symbol shown.function)
      && within_span claim.line shown.function_span
    then other_function symbol ∷ []
    else []

-- `v in allowed`, which raises TypeError on a value that has no hash.
abbrev pub is_allowed : List Text → Value → Outcome Bool
is_allowed allowed (word t) = ok (any (text_eq t) allowed)
is_allowed allowed (scalar v) = ok false
is_allowed allowed (unhashable v) = raised

abbrev pub keep_unless : Value → List Value → Bool → List Value
keep_unless v rest b = if b then rest else v ∷ rest

-- The values that are not allowed.
abbrev pub unknown : List Text → List Value → Outcome (List Value)
unknown allowed [] = ok []
unknown allowed (v ∷ values) =
    let others = unknown allowed values in
    is_allowed allowed v >>= λ b. others >>= λ rest. ok (keep_unless v rest b)

abbrev pub undefined_flaws : List Value → List Flaw
undefined_flaws [] = []
undefined_flaws (v ∷ values) = undefined_values (v ∷ values) ∷ []

abbrev pub value_flaws : List Text → List Value → Outcome (List Flaw)
value_flaws allowed values = unknown allowed values >>= λ rest. ok (undefined_flaws rest)

abbrev pub path_flaws : Text → Text → List Flaw
path_flaws path shown = if text_eq path shown then [] else other_path path ∷ []

-- The problems of a claim in front of those of its values.
abbrev pub claim_flaws : Claim → Shown → List Flaw
claim_flaws claim shown =
    path_flaws (or_text claim.file (or_text claim.path shown.path)) shown.path
    ++ (line_flaws (present claim.line) shown.lines
        ++ (line_flaws (present claim.decisive_line) shown.lines
            ++ (quote_flaws claim.evidence_quote shown.lines
                ++ function_flaws (or_text claim.symbol claim.function) claim shown)))

-- `ground`: the problems of a claim, of which a grounded one has none
abbrev pub ground_claim :
    Claim → Shown → (sfr_ids levels categories : List Text) → Outcome (List Flaw)
ground_claim claim shown sfr_ids levels categories = value_flaws sfr_ids claim.sfr >>= λ a.
    value_flaws levels claim.level >>= λ b.
    value_flaws categories claim.category >>= λ c. ok (claim_flaws claim shown ++ (a ++ (b ++ c)))
