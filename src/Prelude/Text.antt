-- ===== src/Prelude/Text.antt =====
-- Python's `str` as a list of code points, and the methods of it that the program calls.
use Prim.Native.Nat.{ℕ, zero, suc, ◌+◌, ◌-◌, ◌*◌, ◌/◌, ◌%◌, ◌≤◌}
use Prim.Native.Char.{code}
use Prim.Native.String.{String}
use mathlib.Core.Path.{◌≡◌, refl, sym, ap, ◌∙◌}
use mathlib.Core.Logic.{inl, inr}
use mathlib.Core.Bool.{Bool, true, false, ◌&&◌, ◌||◌}
use mathlib.Core.List.{List, [], ◌∷◌, ◌++◌, reverse}
use native.Mathlib.Omega.{arith}
use code_analyzer.Prelude.Lists.{All, All-append}
use code_analyzer.Prelude.Tests.{ltb, leb, ◌==◌, if◌then◌else◌, Bool-cases}

abbrev pub Text : Type 0
Text = List ℕ

abbrev pub codes : String → Text
codes String.[] = []
codes (String.◌∷◌ c s) = code c ∷ codes s

abbrev pub text_eq : Text → Text → Bool
text_eq [] [] = true
text_eq (a ∷ s) (b ∷ t) = a == b && text_eq s t
text_eq _ _ = false

-- `str.isspace` of one character.
abbrev pub is_space : ℕ → Bool
is_space c =
    (leb 9 c && leb c 13)
    || (leb 28 c && leb c 32)
    || c == 0x85
    || c == 0xa0
    || c == 0x1680
    || (leb 0x2000 c && leb c 0x200a)
    || c == 0x2028
    || c == 0x2029
    || c == 0x202f
    || c == 0x205f
    || c == 0x3000

abbrev pub lstrip : Text → Text
lstrip [] = []
lstrip (c ∷ s) = let rest = lstrip s in if is_space c then rest else c ∷ s

abbrev pub is_empty {ℓ} : {A : Type ℓ} → List A → Bool
is_empty [] = true
is_empty (_ ∷ _) = false

abbrev pub strip : Text → Text
strip s = reverse (lstrip (reverse (lstrip s)))

-- `s < t` of two strings.
abbrev pub text_lt : Text → Text → Bool
text_lt [] [] = false
text_lt [] (_ ∷ _) = true
text_lt (_ ∷ _) [] = false
text_lt (a ∷ s) (b ∷ t) = ltb a b || (a == b && text_lt s t)

pub text_eq_refl : (s : Text) → text_eq s s ≡ true
text_eq_refl [] = refl
text_eq_refl (a ∷ s) = ground (arith, text_eq_refl s)

pub text_eq→eq : (s t : Text) → text_eq s t ≡ true → s ≡ t
text_eq→eq [] [] h = refl
text_eq→eq [] (b ∷ t) h = absurd (cc)
text_eq→eq (a ∷ s) [] h = absurd (cc)
text_eq→eq (a ∷ s) (b ∷ t) h = ground (arith, text_eq→eq s t)

pub text_eq_sym : (s t : Text) → text_eq s t ≡ text_eq t s
text_eq_sym [] [] = refl
text_eq_sym [] (b ∷ t) = refl
text_eq_sym (a ∷ s) [] = refl
text_eq_sym (a ∷ s) (b ∷ t) = ground (arith, text_eq_sym s t)

-- `str(n)`: the digits of a number, with `n` as enough fuel.
abbrev digits_of : ℕ → ℕ → Text
digits_of zero n = (48 + n) ∷ []
digits_of (suc fuel) n =
    let front = digits_of fuel (n / 10) in
    if ltb n 10 then (48 + n) ∷ [] else front ++ (48 + n % 10) ∷ []

unfoldable pub decimal : ℕ → Text
decimal n = digits_of n n

-- What the digits stand for, from `acc` on.
unfoldable pub value_of : ℕ → Text → ℕ
value_of acc [] = acc
value_of acc (c ∷ s) = value_of (acc * 10 + (c - 48)) s

value_of-snoc :
    (acc : ℕ) (s : Text) (c : ℕ) → value_of acc (s ++ c ∷ []) ≡ value_of acc s * 10 + (c - 48)
unfolding value_of
value_of-snoc acc [] c = refl
value_of-snoc acc (a ∷ s) c = value_of-snoc (acc * 10 + (a - 48)) s c

value_of-digits_of : (fuel n : ℕ) → n ≤ fuel → value_of 0 (digits_of fuel n) ≡ n
unfolding value_of
value_of-digits_of zero n h = omega arith
value_of-digits_of (suc fuel) n h = elim (Bool-cases (ltb n 10)) [
  | inl e ↦ rw e (omega arith)
  | inr e ↦ rw (e, value_of-snoc, value_of-digits_of fuel (n / 10) (ground arith)) (omega arith)
]

pub value_of-decimal : (n : ℕ) → value_of 0 (decimal n) ≡ n
unfolding decimal
value_of-decimal n = value_of-digits_of n n (omega arith)

abbrev pub IsDigit : ℕ → Type 0
IsDigit c = (48 ≤ c) × (c ≤ 57)

digits_of-IsDigit : (fuel n : ℕ) → n ≤ fuel → All IsDigit (digits_of fuel n)
digits_of-IsDigit zero n h = ((omega arith, omega arith), tt)
digits_of-IsDigit (suc fuel) n h = elim (Bool-cases (ltb n 10)) [
  | inl e ↦ rw e ((omega arith, ground arith), tt)
  | inr e ↦ rw e (
      All-append IsDigit (digits_of fuel (n / 10)) ((48 + n % 10) ∷ [])
        (digits_of-IsDigit fuel (n / 10) (ground arith)) ((omega arith, omega arith), tt))
]

pub decimal-IsDigit : (n : ℕ) → All IsDigit (decimal n)
unfolding decimal
decimal-IsDigit n = digits_of-IsDigit n n (omega arith)

pub decimal-cons : (n : ℕ) → (c : ℕ) × ((s : Text) × (decimal n ≡ c ∷ s))
unfolding decimal
decimal-cons n = go n
  where
    front : (s : Text) (c : ℕ) → (d : ℕ) × ((t : Text) × (s ++ c ∷ [] ≡ d ∷ t))
    front [] c = (c, ([], refl))
    front (d ∷ s) c = (d, (s ++ c ∷ [], refl))

    go : (fuel : ℕ) → (c : ℕ) × ((s : Text) × (digits_of fuel n ≡ c ∷ s))
    go zero = (48 + n, ([], refl))
    go (suc fuel) = elim (Bool-cases (ltb n 10)) [
      | inl e ↦ (48 + n, ([], rw e refl))
      | inr e ↦
          let (c, (s, e')) = front (digits_of fuel (n / 10)) (48 + n % 10) in (c, (s, rw e e'))
    ]

-- Two numbers with the same digits are equal.
pub decimal-injective : (m n : ℕ) → decimal m ≡ decimal n → m ≡ n
unfolding decimal
decimal-injective m n h =
    sym (value_of-digits_of m m (omega arith))
    ∙ ap (value_of 0) h
    ∙ value_of-digits_of n n (omega arith)
