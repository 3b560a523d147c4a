-- ===== src/Schema.antt =====
-- code_analyzer/harness/schema.py: one scanner finding, validated. `unicode` stands for Python's
-- Unicode database. Of `str.lower` only what a comparison with an ASCII word can tell is kept.
pub mod Values
pub mod Accepted
pub mod Extract
mod Examples
use code_analyzer.Prelude.{
  ℕ, ◌+◌, ◌-◌, ◌*◌, ◌^◌, Bool, true, false, ◌&&◌, ◌||◌, not, Option, none, some, List, [], ◌∷◌,
  ◌++◌, map, ltb, leb, ◌==◌, if◌then◌else◌, any, all, length, String,
}
use code_analyzer.Prelude.Text.{Text, text_eq, codes, strip, is_empty}
use Values.{
  ℤ, pos, negsuc, Float, finite, Json, null, bool, int, real, str, arr, obj, Items, Fields,
  elements, get, present, text_of, in_unit, Digit, decimal_digit, digit_only, no_digit,
}

-- A value, or an exception that leaves the function.
pub data Outcome (A : Type 0) : Type 0 where
  ok : A → Outcome A
  raised : Outcome A

infixl 5 ◌>>=◌
abbrev pub ◌>>=◌ : {A B : Type 0} → Outcome A → (A → Outcome B) → Outcome B
ok a >>= f = f a
raised >>= f = raised

-- `MAX_LINE`
abbrev pub max_line : ℕ
max_line = 1000000

-- `SEVERITIES`
unfoldable pub severities : List Text
severities = map codes ("critical" ∷ "high" ∷ "medium" ∷ "low" ∷ "info" ∷ [])

-- `FINDING_CATEGORIES`
unfoldable pub finding_categories : List Text
finding_categories = map codes (
    "buffer" ∷ "out-of-bounds" ∷ "pointer-misuse" ∷ "unsafe-copy" ∷ "null-dereference"
    ∷ "uninitialized" ∷ "resource-leak" ∷ "integer-overflow" ∷ "undefined-behavior" ∷ "lifetime"
    ∷ "stack-usage" ∷ "format" ∷ "randomness" ∷ "input-validation" ∷ "protocol-parsing"
    ∷ "authentication" ∷ "hardcoded-secret" ∷ "info-leak" ∷ "crypto-misuse" ∷ "trust-boundary"
    ∷ "firmware-update" ∷ "debug-backdoor" ∷ "race" ∷ "isr-safety" ∷ "isr-race" ∷ "volatile-misuse"
    ∷ "atomicity" ∷ "rtos-sync" ∷ "watchdog" ∷ "mmio" ∷ "register-access" ∷ "dma" ∷ "timeout"
    ∷ "hardware-state" ∷ "reset-behavior" ∷ "sign-conversion" ∷ "error-path" ∷ "unchecked-return"
    ∷ "handle-misuse" ∷ "state-machine" ∷ "inverted-condition" ∷ "dead-code" ∷ "unreachable-branch"
    ∷ "other" ∷ [])

abbrev pub spelling : String → String → Text × Text
spelling from to = (codes from, codes to)

-- `CATEGORY_SPELLINGS`
unfoldable pub category_spellings : List (Text × Text)
category_spellings =
    spelling "undefined-behaviour" "undefined-behavior"
    ∷ spelling "reset-behaviour" "reset-behavior"
    ∷ spelling "uninitialised" "uninitialized"
    ∷ spelling "information-leak" "info-leak"
    ∷ []

unfoldable pub respell : List (Text × Text) → Text → Text
respell [] t = t
respell ((from, to) ∷ rest) t = if text_eq from t then to else respell rest t

unfoldable pub one_of : List Text → Text → Bool
one_of words t = any (text_eq t) words

-- The Kelvin sign is the one character outside ASCII whose lower case is in ASCII.
abbrev lower_char : ℕ → ℕ
lower_char c = if leb 65 c && leb c 90 then c + 32 else if c == 0x212a then 107 else c

abbrev pub lower : Text → Text
lower = map lower_char

-- Why a finding is dropped; the words that the message quotes are kept.
pub data Reason : Type 0 where
  not_an_object no_file no_message : Reason
  undeclared_category undeclared_severity : Text → Reason
  not_two_elements not_integers not_a_range : Reason
  bad_cwe bad_confidence : Reason

pub record Finding : Type 0 where
  pub file : Text
  pub message : Text
  pub category : Text
  pub severity : Text
  pub line : ℕ
  pub line_range : ℕ × ℕ
  pub symbol : Text
  pub description : Text
  pub evidence : Text
  pub rule_id : Text
  pub cwe : Option ℕ
  pub confidence : Option Float

-- `sys.get_int_max_str_digits()`
abbrev max_str_digits : ℕ
max_str_digits = 4300

-- The span of `_line_range`, in the order of its three spellings.
pub range_value : Fields → Option (List Json)
range_value item = elim (present (get (codes "line_range") item)) [
  | some (arr xs) ↦ some (elements xs)
  | some _ ↦ none
  | none ↦ elim (present (get (codes "line_start") item)) [
    | some start ↦
        some (start ∷ elim (get (codes "line_end") item) [ none ↦ start | some last ↦ last ] ∷ [])
    | none ↦ elim (present (get (codes "line") item)) [
      | some line ↦ some (line ∷ line ∷ [])
      | none ↦ none
    ]
  ]
]

abbrev check_range : ℤ → ℤ → Option (ℕ × ℕ)
check_range (pos start) (pos last) =
    if ltb start 1 || ltb last start || ltb max_line last then none else some (start, last)
check_range _ _ = none

abbrev drop_separator : Text → Text
drop_separator [] = []
drop_separator (c ∷ s) = if c == b'-' || c == b'_' || c == b' ' then s else c ∷ s

-- What stands behind `cwe` and a separator, in a text that begins so.
abbrev behind_cwe : Text → Option Text
behind_cwe (a ∷ b ∷ c ∷ s) =
    if a == b'c' && b == b'w' && c == b'e' then some (drop_separator s) else none
behind_cwe _ = none

-- `declared_cwe`: a blank text is an absent field
abbrev declared_cwe : Option Json → Option Json
declared_cwe (some (str s)) = if is_empty (strip s) then none else some (str s)
declared_cwe o = o

-- `float(value)` of an integer; one that rounds to 2 ^ 1024 raises.
abbrev pub float_of_int : ℤ → Outcome Float
float_of_int (pos n) = if leb (2 ^ 1024 - 2 ^ 970) n then raised else ok (finite false n 1)
float_of_int (negsuc n) =
    if leb (2 ^ 1024 - 2 ^ 970) (n + 1) then raised else ok (finite true (n + 1) 1)

abbrev unit_float : Float → Option Float
unit_float f = if in_unit f then some f else none

-- `_confidence`
pub confidence_of : Json → Outcome (Option Float)
confidence_of (int n) = float_of_int n >>= λ f. ok (unit_float f)
confidence_of (real f) = ok (unit_float f)
confidence_of _ = ok none

-- What becomes of one item.
pub data Checked : Type 0 where
  accepted : Finding → Checked
  dropped : Reason → Checked

abbrev pub add_confidence : Finding → Option Float → Checked
add_confidence f none = dropped bad_confidence
add_confidence f (some c) = accepted (record f { confidence = some c })

abbrev pub declare_confidence : Finding → Option Json → Outcome Checked
declare_confidence f none = ok (accepted f)
declare_confidence f (some v) = confidence_of v >>= λ c. ok (add_confidence f c)

pub check_confidence : Fields → Finding → Outcome Checked
check_confidence item f = declare_confidence f (present (get (codes "confidence") item))

abbrev pub add_cwe : Fields → Finding → Option ℕ → Outcome Checked
add_cwe item f none = ok (dropped bad_cwe)
add_cwe item f (some n) = check_confidence item (record f { cwe = some n })

abbrev pub both_numbers : Option ℤ → Option ℤ → Option (ℕ × ℕ) × Reason
both_numbers none last = (none, not_integers)
both_numbers (some start) none = (none, not_integers)
both_numbers (some start) (some last) = (check_range start last, not_a_range)

-- What one item adds to the findings and the problem reports of the items behind it.
abbrev pub add_checked :
    ℕ → Checked → List Finding × List (ℕ × Reason) → List Finding × List (ℕ × Reason)
add_checked index (accepted f) rest = (f ∷ rest.0, rest.1)
add_checked index (dropped reason) rest = (rest.0, (index, reason) ∷ rest.1)

module _ (unicode : ℕ → Digit) where
  abbrev is_digit : ℕ → Bool
  is_digit c = elim (unicode c) [ decimal_digit _ ↦ true | digit_only ↦ true | no_digit ↦ false ]

  abbrev is_decimal : ℕ → Bool
  is_decimal c = elim (unicode c) [ decimal_digit _ ↦ true | digit_only ↦ false | no_digit ↦ false ]

  abbrev digit_value : ℕ → ℕ
  digit_value c = elim (unicode c) [ decimal_digit n ↦ n | digit_only ↦ 0 | no_digit ↦ 0 ]

  abbrev number_of : ℕ → Text → ℕ
  number_of acc [] = acc
  number_of acc (c ∷ s) = number_of (acc * 10 + digit_value c) s

  -- `s.isdigit()`
  pub isdigit : Text → Bool
  isdigit s = not (is_empty s) && all is_digit s

  -- `int(s)` of a text that `isdigit` accepts
  pub to_int : Text → Outcome ℕ
  to_int s =
      if all is_decimal s && leb (length s) max_str_digits then ok (number_of 0 s) else raised

  pub line_text : Text → Outcome (Option ℤ)
  line_text s = if isdigit (strip s) then (to_int (strip s) >>= λ n. ok (some (pos n))) else ok none

  -- `line_number`
  unfoldable pub line_number : Json → Outcome (Option ℤ)
  line_number (int n) = ok (some n)
  line_number (str s) = line_text s
  line_number _ = ok none

  -- The second entry is read only where the first is a number.
  abbrev second_entry : Json → Option ℤ → Outcome (Option (ℕ × ℕ) × Reason)
  second_entry b none = ok (none, not_integers)
  second_entry b (some start) = line_number b >>= λ last. ok (both_numbers (some start) last)

  pub entries_range : Json → Json → Outcome (Option (ℕ × ℕ) × Reason)
  entries_range a b = line_number a >>= second_entry b

  abbrev values_range : Option (List Json) → Outcome (Option (ℕ × ℕ) × Reason)
  values_range (some (a ∷ [])) = entries_range a a
  values_range (some (a ∷ b ∷ [])) = entries_range a b
  values_range _ = ok (none, not_two_elements)

  -- `_line_range`: the span, or the reason where there is none
  pub line_range_of : Fields → Outcome (Option (ℕ × ℕ) × Reason)
  line_range_of item = values_range (range_value item)

  -- `_cwe`
  pub cwe_of : Json → Option ℕ
  cwe_of (int (pos n)) = if ltb 0 n && leb n 99999 then some n else none
  cwe_of (str s) = elim (behind_cwe (lower (strip s))) [
    | none ↦ none
    | some digits ↦
        if not (is_empty digits) && leb (length digits) 5 && all is_decimal digits
        then some (number_of 0 digits)
        else none
  ]
  cwe_of _ = none

  abbrev declare_cwe : Fields → Finding → Option Json → Outcome Checked
  declare_cwe item f none = check_confidence item f
  declare_cwe item f (some v) = add_cwe item f (cwe_of v)

  pub check_cwe : Fields → Finding → Outcome Checked
  check_cwe item f = declare_cwe item f (declared_cwe (present (get (codes "cwe") item)))

  pub check_span : Fields → Text → Text → Text → Text → Option (ℕ × ℕ) × Reason → Outcome Checked
  check_span item path message category severity (none, reason) = ok (dropped reason)
  check_span item path message category severity (some span, reason) = check_cwe item (record {
    file = path;
    message = message;
    category = category;
    severity = severity;
    line = span.0;
    line_range = span;
    symbol = text_of (get (codes "symbol") item);
    description = text_of (get (codes "description") item);
    evidence = text_of (get (codes "evidence") item);
    rule_id = text_of (get (codes "rule_id") item);
    cwe = none;
    confidence = none;
  })

  -- `_validate` of an object
  pub validate_fields : Fields → Outcome Checked
  validate_fields item =
      let path = text_of (get (codes "file") item) in
      let message = text_of (get (codes "message") item) in
      let category = respell category_spellings (lower (text_of (get (codes "category") item))) in
      let severity = lower (text_of (get (codes "severity") item)) in
      if is_empty path
      then ok (dropped no_file)
      else if is_empty message
      then ok (dropped no_message)
      else if not (one_of finding_categories category)
      then ok (dropped (undeclared_category category))
      else if not (one_of severities severity)
      then ok (dropped (undeclared_severity severity))
      else line_range_of item >>= check_span item path message category severity

  -- `_validate`
  pub validate : Json → Outcome Checked
  validate (obj item) = validate_fields item
  validate _ = ok (dropped not_an_object)

  -- The loop of `parse_findings`, from the index of its first item on.
  pub collect : ℕ → List Json → Outcome (List Finding × List (ℕ × Reason))
  collect index [] = ok ([], [])
  collect index (item ∷ items) = validate item >>= λ checked.
      collect (index + 1) items >>= λ rest. ok (add_checked index checked rest)
