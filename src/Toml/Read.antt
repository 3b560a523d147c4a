-- ===== src/Toml/Read.antt =====
-- A reader of basic strings, which refuses what the TOML specification does, and the round trip.
use code_analyzer.Prelude.{
  ℕ, zero, suc, ◌+◌, ◌-◌, ◌*◌, ◌/◌, ◌%◌, ◌<◌, ◌≡◌, ◌||◌, ◌&&◌, not, leb, Bool, All, true, false,
  refl, ap, inl, inr, Option, none, some, [], ◌∷◌, ◌++◌, append_assoc, ltb, ◌==◌, if◌then◌else◌,
  Bool-cases, arith,
}
use code_analyzer.Prelude.Text.{Text}
use code_analyzer.Toml.{hex_digit, escaped, escaped_all, string_text}

-- Where the reader stands: between characters, behind a backslash, or with some digits of a code
-- to go and the value of those in front.
pub data Mode : Type 0 where
  between escaping : Mode
  in_code : ℕ → ℕ → Mode

-- A hexadecimal digit.
is_hex : ℕ → Bool
is_hex c = (leb 48 c && leb c 57) || (leb 97 c && leb c 102) || (leb 65 c && leb c 70)

hex_value : ℕ → ℕ
hex_value c = if ltb c 58 then c - 48 else if ltb c 71 then c - 55 else c - 87

-- A Unicode scalar value: no surrogate.
abbrev pub is_scalar : ℕ → Bool
is_scalar c = not (leb 55296 c && leb c 57343)

-- What may stand in a basic string as it is: no control character but the tab, and no surrogate.
is_raw : ℕ → Bool
is_raw c = c == 9 || (leb 32 c && not (c == 127) && is_scalar c)

-- The character that an escape of two characters stands for, `none` for one that TOML does not know.
short_escape : ℕ → Option ℕ
short_escape c =
    if c == 98
    then some 8
    else if c == 116
    then some 9
    else if c == 110
    then some 10
    else if c == 102
    then some 12
    else if c == 114
    then some 13
    else if c == 34 || c == 92
    then some c
    else none

push : ℕ → Option (Text × Text) → Option (Text × Text)
push c none = none
push c (some (s, rest)) = some (c ∷ s, rest)

push_if : Option ℕ → Option (Text × Text) → Option (Text × Text)
unfolding push
push_if none rest = none
push_if (some c) rest = push c rest

-- The string up to its closing quote, and the text behind it; `none` where the text is no basic
-- string. Of the escapes by a number only those of four digits are read, which is fewer than TOML
-- allows.
pub read : Mode → Text → Option (Text × Text)
unfolding push push_if hex_value short_escape is_hex is_raw
read mode [] = none
read between (c ∷ s) =
    let escape = read escaping s in
    let rest = read between s in
    if c == 34
    then some ([], s)
    else if c == 92
    then escape
    else if is_raw c
    then push c rest
    else none
read escaping (c ∷ s) =
    let code = read (in_code 3 0) s in
    if c == 117 then code else push_if (short_escape c) (read between s)
read (in_code zero n) (c ∷ s) =
    let code = n * 16 + hex_value c in
    let rest = push code (read between s) in if is_hex c && is_scalar code then rest else none
read (in_code (suc k) n) (c ∷ s) =
    let rest = read (in_code k (n * 16 + hex_value c)) s in if is_hex c then rest else none

hex_value-hex_digit : (n : ℕ) → n < 16 → hex_value (hex_digit n) ≡ n
unfolding hex_value hex_digit
hex_value-hex_digit n h = ground arith

is_hex-hex_digit : (n : ℕ) → n < 16 → is_hex (hex_digit n) ≡ true
unfolding is_hex hex_digit
is_hex-hex_digit n h = ground arith

code-push :
    (n c : ℕ) (rest : Option (Text × Text))
    → n ≡ c
    → c < 256
    → (if is_scalar n then push n rest else none) ≡ push c rest
code-push n c rest e h = let low : leb 55296 c ≡ false = ground arith in rw (e, low) refl

is_raw-shown : (c : ℕ) → is_scalar c ≡ true → (ltb c 32 || c == 127) ≡ false → is_raw c ≡ true
unfolding is_raw
is_raw-shown c h k = ground (arith, h, k)

read-code :
    (c : ℕ) (s : Text)
    → c < 256
    → read between (92 ∷ 117 ∷ 48 ∷ 48 ∷ hex_digit (c / 16) ∷ hex_digit (c % 16) ∷ s)
      ≡ push c (read between s)
unfolding read
read-code c s h =
    rw
      (
        hex_value-hex_digit (c / 16) (omega arith),
        hex_value-hex_digit (c % 16) (omega arith),
        is_hex-hex_digit (c / 16) (omega arith),
        is_hex-hex_digit (c % 16) (omega arith),
      )
      (code-push ((0 * 16 + c / 16) * 16 + c % 16) c (read between s) (omega arith) h)

same_number : (c n : ℕ) → (c == n) ≡ true → n ≡ c
same_number c n e = ground (arith, e)

read-escaped :
    (c : ℕ) (s : Text)
    → is_scalar c ≡ true
    → read between (escaped c ++ s) ≡ push c (read between s)
unfolding escaped read
read-escaped c s u =
    let written = λ (n : ℕ). push n (read between s) in
    elim (Bool-cases (c == 92)) [
      | inl e ↦ rw e (ap written (same_number c 92 e))
      | inr e ↦ elim (Bool-cases (c == 34)) [
        | inl f ↦ rw (e, f) (ap written (same_number c 34 f))
        | inr f ↦ elim (Bool-cases (c == 8)) [
          | inl g ↦ rw (e, f, g) (ap written (same_number c 8 g))
          | inr g ↦ elim (Bool-cases (c == 9)) [
            | inl h ↦ rw (e, f, g, h) (ap written (same_number c 9 h))
            | inr h ↦ elim (Bool-cases (c == 10)) [
              | inl i ↦ rw (e, f, g, h, i) (ap written (same_number c 10 i))
              | inr i ↦ elim (Bool-cases (c == 12)) [
                | inl j ↦ rw (e, f, g, h, i, j) (ap written (same_number c 12 j))
                | inr j ↦ elim (Bool-cases (c == 13)) [
                  | inl k ↦ rw (e, f, g, h, i, j, k) (ap written (same_number c 13 k))
                  | inr k ↦ elim (Bool-cases (ltb c 32 || c == 127)) [
                    | inl l ↦ rw (e, f, g, h, i, j, k, l) (read-code c s (ground (arith, l)))
                    | inr l ↦ rw (e, f, g, h, i, j, k, l, e, f, is_raw-shown c u l) refl
                  ]
                ]
              ]
            ]
          ]
        ]
      ]
    ]

-- The text holds no surrogate.
abbrev pub IsUnicode : ℕ → Type 0
IsUnicode c = is_scalar c ≡ true

read-escaped_all :
    (s rest : Text) → All IsUnicode s → read between (escaped_all s ++ 34 ∷ rest) ≡ some (s, rest)
unfolding escaped_all read
read-escaped_all [] rest h = refl
read-escaped_all (c ∷ s) rest h =
    rw (append_assoc, read-escaped c (escaped_all s ++ 34 ∷ rest) h.0, read-escaped_all s rest h.1)
      refl

-- What `value_text` writes of a string without surrogates is a basic string of TOML, with no raw
-- control character in it and no escape that TOML does not know: a reader that refuses these gets
-- the string back, and goes on right behind it, whatever follows.
pub read-string_text :
    (s rest : Text)
    → All IsUnicode s
    → (body : Text) × ((string_text s ++ rest ≡ 34 ∷ body) × (read between body ≡ some (s, rest)))
unfolding string_text
read-string_text s rest h = (
  escaped_all s ++ 34 ∷ rest,
  (ap (λ t. 34 ∷ t) (append_assoc (escaped_all s) (34 ∷ []) rest), read-escaped_all s rest h),
)
