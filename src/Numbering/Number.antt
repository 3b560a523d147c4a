-- ===== src/Numbering/Number.antt =====
-- sesip/pv.py: `int` as `_num` calls it, and the codes of the numbers.
use code_analyzer.Prelude.{
  ℕ, zero, suc, ◌+◌, ◌-◌, ◌*◌, ◌&&◌, Bool, true, false, Option, none, some, [], ◌∷◌, ◌++◌, ltb,
  ◌==◌, if◌then◌else◌, length,
}
use code_analyzer.Prelude.Text.{Text, codes, strip, decimal}

-- Python's `int`.
pub data ℤ : Type 0 where
  pos : ℕ → ℤ
  negsuc : ℕ → ℤ

unfoldable pub int_lt : ℤ → ℤ → Bool
int_lt (pos m) (pos n) = ltb m n
int_lt (pos m) (negsuc n) = false
int_lt (negsuc m) (pos n) = true
int_lt (negsuc m) (negsuc n) = ltb n m

unfoldable pub negated : ℕ → ℤ
negated zero = pos 0
negated (suc n) = negsuc n

-- `text.split("-", 1)[1]`, `none` where the text has no dash.
unfoldable pub behind_dash : Text → Option Text
behind_dash [] = none
behind_dash (c ∷ s) = let rest = behind_dash s in if c == 45 then some s else rest

module _ (digit : ℕ → Option ℕ) where
  -- The digits that `int` reads, with single underscores between them. The flag says that a
  -- digit stands in front.
  unfoldable pub digits_value : Text → Bool → ℕ → Option ℕ
  digits_value [] behind acc = if behind then some acc else none
  digits_value (c ∷ s) behind acc = elim (digit c) [
    | some d ↦ digits_value s true (acc * 10 + d)
    | none ↦ if c == 95 && behind then digits_value s false acc else none
  ]

  -- The text without white space around it, from its sign on.
  unfoldable pub signed_value : Text → Option ℤ
  unfolding digits_value negated
  signed_value [] = none
  signed_value (c ∷ s) =
      if c == 45
      then elim (digits_value s false 0) [ none ↦ none | some n ↦ some (negated n) ]
      else if c == 43
      then elim (digits_value s false 0) [ none ↦ none | some n ↦ some (pos n) ]
      else elim (digits_value (c ∷ s) false 0) [ none ↦ none | some n ↦ some (pos n) ]

  -- `int(text)`, `none` for a `ValueError`. The interpreter's own limit on the number of digits
  -- is left out.
  unfoldable pub int_of : Text → Option ℤ
  unfolding signed_value
  int_of s = signed_value (strip s)

  -- `_num`
  unfoldable pub num : Text → ℤ
  unfolding behind_dash int_of
  num pv_id = elim (behind_dash pv_id) [
    | none ↦ pos 0
    | some s ↦ elim (int_of s) [ none ↦ pos 0 | some n ↦ n ]
  ]

-- The zeros in front of a text that make it `width` characters long.
unfoldable pub zeros : ℕ → Text
zeros zero = []
zeros (suc n) = 48 ∷ zeros n

-- `f"PV-{number:04d}"`
unfoldable pub pv_code : ℕ → Text
unfolding zeros
pv_code number = codes "PV-" ++ (zeros (4 - length (decimal number)) ++ decimal number)
