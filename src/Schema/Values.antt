-- ===== src/Schema/Values.antt =====
-- The values that Python's `json.loads` returns, and what code_analyzer/harness/schema.py asks of
-- them.
use code_analyzer.Prelude.{
  ℕ, Bool, true, false, Option, none, some, List, [], ◌∷◌, ◌==◌, leb, if◌then◌else◌,
}
use code_analyzer.Prelude.Text.{Text, text_eq, strip}

-- `negsuc n` is -(n + 1).
pub data ℤ : Type 0 where
  pos : ℕ → ℤ
  negsuc : ℕ → ℤ

-- A binary64 by its exact value: a fraction with its sign, or none.
pub data Float : Type 0 where
  finite : (negative : Bool) → (numerator denominator : ℕ) → Float
  infinite : (negative : Bool) → Float
  nan : Float

mutual
  pub data Json : Type 0 where
    null : Json
    bool : Bool → Json
    int : ℤ → Json
    real : Float → Json
    str : Text → Json
    arr : Items → Json
    obj : Fields → Json

  pub data Items : Type 0 where
    nil : Items
    cons : Json → Items → Items

  pub data Fields : Type 0 where
    end : Fields
    field : Text → Json → Fields → Fields

abbrev pub elements : Items → List Json
elements nil = []
elements (cons x xs) = x ∷ elements xs

-- `d.get(key)`
abbrev pub get : Text → Fields → Option Json
get key end = none
get key (field k v rest) = if text_eq k key then some v else get key rest

-- `d.get(key) is not None`, with the value
abbrev pub present : Option Json → Option Json
present (some null) = none
present o = o

-- `_text(d.get(key))`
abbrev pub text_of : Option Json → Text
text_of (some (str s)) = strip s
text_of _ = []

-- `0.0 <= number <= 1.0`
abbrev pub in_unit : Float → Bool
in_unit (finite false n d) = leb n d
in_unit (finite true n d) = n == 0
in_unit _ = false

-- What the Unicode database says of a character: a decimal digit with its value, a digit that
-- `str.isdigit` accepts and `int` does not, such as a superscript, or neither.
pub data Digit : Type 0 where
  decimal_digit : ℕ → Digit
  digit_only : Digit
  no_digit : Digit
