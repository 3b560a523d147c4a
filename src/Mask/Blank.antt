-- ===== src/Mask/Blank.antt =====
-- What `_blank` keeps of a text.
use code_analyzer.Prelude.{
  ℕ, zero, suc, ◌+◌, ◌≡◌, ◌≢◌, ◌⊎◌, inl, inr, refl, [], ◌∷◌, ◌==◌, length, Bool-cases, arith,
}
use code_analyzer.Prelude.Text.{Text}
use code_analyzer.Plan.{starts_from, line_starts}
use code_analyzer.Mask.{blanked, blank}

-- The characters are the text's, or spaces in place of characters that are no line breaks.
abbrev pub Masks : Text → Text → Type 0
Masks [] [] = Unit
Masks [] (d ∷ chars) = ⊥
Masks (c ∷ text) [] = ⊥
Masks (c ∷ text) (d ∷ chars) = ((d ≡ c) ⊎ ((d ≡ 32) × (c ≢ 10))) × Masks text chars

pub Masks-refl : (text : Text) → Masks text text
Masks-refl [] = tt
Masks-refl (c ∷ text) = (inl refl, Masks-refl text)

blanked-Masks :
    (c d : ℕ) → (d ≡ c) ⊎ ((d ≡ 32) × (c ≢ 10)) → (blanked d ≡ c) ⊎ ((blanked d ≡ 32) × (c ≢ 10))
unfolding blanked
blanked-Masks c d (inl e) = elim (Bool-cases (d == 10)) [
  | inl t ↦ rw t (inl e)
  | inr t ↦ rw t (inr (refl, ground (arith, e)))
]
blanked-Masks c d (inr (e, n)) = elim (Bool-cases (d == 10)) [
  | inl t ↦ absurd (ground (arith, e))
  | inr t ↦ rw t (inr (refl, n))
]

pub blank-Masks :
    (start end : ℕ) (text chars : Text) → Masks text chars → Masks text (blank start end chars)
unfolding blank
blank-Masks start zero text chars h = h
blank-Masks start (suc end) [] [] h = h
blank-Masks start (suc end) [] (d ∷ chars) h = elim h [ ]
blank-Masks start (suc end) (c ∷ text) [] h = elim h [ ]
blank-Masks zero (suc end) (c ∷ text) (d ∷ chars) h =
    (blanked-Masks c d h.0, blank-Masks 0 end text chars h.1)
blank-Masks (suc start) (suc end) (c ∷ text) (d ∷ chars) h =
    (h.0, blank-Masks start end text chars h.1)

pub length-Masks : (text chars : Text) → Masks text chars → length chars ≡ length text
length-Masks [] [] h = refl
length-Masks [] (d ∷ chars) h = elim h [ ]
length-Masks (c ∷ text) [] h = elim h [ ]
length-Masks (c ∷ text) (d ∷ chars) h = omega (arith, length-Masks text chars h.1)

same_break : (c d : ℕ) → (d ≡ c) ⊎ ((d ≡ 32) × (c ≢ 10)) → (d == 10) ≡ (c == 10)
same_break c d (inl e) = rw e
same_break c d (inr (e, n)) = ground (arith, e, n)

starts_from-Masks :
    (k : ℕ) (text chars : Text) → Masks text chars → starts_from k chars ≡ starts_from k text
starts_from-Masks k [] [] h = refl
starts_from-Masks k [] (d ∷ chars) h = elim h [ ]
starts_from-Masks k (c ∷ text) [] h = elim h [ ]
starts_from-Masks k (c ∷ text) (d ∷ chars) h =
    rw (same_break c d h.0, starts_from-Masks (k + 1) text chars h.1)

pub line_starts-Masks :
    (text chars : Text) → Masks text chars → line_starts chars ≡ line_starts text
unfolding line_starts
line_starts-Masks text chars h = rw (starts_from-Masks 0 text chars h)
