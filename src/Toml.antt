-- ===== src/Toml.antt =====
-- core/tomlw.py: the strings and keys that the TOML writer puts out.
use code_analyzer.Prelude.{
  ℕ, zero, suc, ◌+◌, ◌-◌, ◌*◌, ◌/◌, ◌%◌, ◌||◌, ◌&&◌, Bool, true, false, Option, none, some, List,
  [], ◌∷◌, ◌++◌, ltb, leb, ◌==◌, if◌then◌else◌, all,
}
use code_analyzer.Prelude.Text.{Text, is_empty}
pub mod Read
mod Examples

-- A digit of `f"{n:04x}"`.
unfoldable pub hex_digit : ℕ → ℕ
hex_digit n = if ltb n 10 then 48 + n else 87 + n

-- The characters that `value_text` writes for one of a string: those of `_ESCAPES`, the other
-- control characters by their number, and the rest as they are.
unfoldable pub escaped : ℕ → Text
unfolding hex_digit
escaped c =
    if c == 92
    then 92 ∷ 92 ∷ []
    else if c == 34
    then 92 ∷ 34 ∷ []
    else if c == 8
    then 92 ∷ 98 ∷ []
    else if c == 9
    then 92 ∷ 116 ∷ []
    else if c == 10
    then 92 ∷ 110 ∷ []
    else if c == 12
    then 92 ∷ 102 ∷ []
    else if c == 13
    then 92 ∷ 114 ∷ []
    else if ltb c 32 || c == 127
    then 92 ∷ 117 ∷ 48 ∷ 48 ∷ hex_digit (c / 16) ∷ hex_digit (c % 16) ∷ []
    else c ∷ []

unfoldable pub escaped_all : Text → Text
unfolding escaped
escaped_all [] = []
escaped_all (c ∷ s) = escaped c ++ escaped_all s

-- `value_text` of a string.
unfoldable pub string_text : Text → Text
unfolding escaped_all
string_text s = 34 ∷ escaped_all s ++ 34 ∷ []

-- A character that `_BARE_KEY` matches. Its `$` also matches in front of a line break that ends
-- the key.
unfoldable pub is_bare : ℕ → Bool
is_bare c =
    (leb 65 c && leb c 90)
    || (leb 97 c && leb c 122)
    || (leb 48 c && leb c 57)
    || c == 95
    || c == 45

-- The rest of the key after its first character.
unfoldable pub is_bare_rest : Text → Bool
unfolding is_bare
is_bare_rest [] = true
is_bare_rest (c ∷ []) = is_bare c || c == 10
is_bare_rest (c ∷ d ∷ s) = is_bare c && is_bare_rest (d ∷ s)

-- `_BARE_KEY.match(key)`
unfoldable pub is_bare_key : Text → Bool
unfolding is_bare is_bare_rest
is_bare_key [] = false
is_bare_key (c ∷ s) = is_bare c && is_bare_rest s

-- `_key`
unfoldable pub key_text : Text → Text
unfolding is_bare_key string_text
key_text key = if is_bare_key key then key else string_text key
