-- ===== src/Numbering/Codes.antt =====
-- `_num` reads back the numbers that `number` writes.
use code_analyzer.Prelude.{
  ℕ, zero, suc, ◌+◌, ◌-◌, ◌*◌, ◌<◌, ◌≡◌, true, false, refl, sym, subst, ap, ◌∙◌, Option, some, [],
  ◌∷◌, ◌++◌, ◌==◌, length, All, All-append, arith,
}
use code_analyzer.Prelude.Text.{
  Text, codes, lstrip, strip, decimal, value_of, value_of-decimal, IsDigit, decimal-IsDigit,
  decimal-cons,
}
use code_analyzer.Numbering.Number.{
  ℤ, pos, digits_value, signed_value, int_of, num, behind_dash, zeros, pv_code,
}
use mathlib.Core.List.{reverse, reverse-cons, reverse-reverse}

-- The character is no white space: `strip` leaves it.
lstrip_digits : (s : Text) → All IsDigit s → lstrip s ≡ s
lstrip_digits [] h = refl
lstrip_digits (c ∷ s) h = let (l, u) = h.0 in ground arith

All-reverse : (s : Text) → All IsDigit s → All IsDigit (reverse s)
All-reverse [] h = tt
All-reverse (c ∷ s) h =
    rw reverse-cons (All-append IsDigit (reverse s) (c ∷ []) (All-reverse s h.1) (h.0, tt))

strip_digits : (s : Text) → All IsDigit s → strip s ≡ s
strip_digits s h =
    rw (lstrip_digits s h, lstrip_digits (reverse s) (All-reverse s h)) (reverse-reverse s)

module _ (digit : ℕ → Option ℕ) (ascii : (d : ℕ) → d < 10 → digit (48 + d) ≡ some d) where
  digit_of : (c : ℕ) → IsDigit c → digit c ≡ some (c - 48)
  digit_of c h =
      let (l, u) = h in
      let e : 48 + (c - 48) ≡ c = omega arith in ap digit (sym e) ∙ ascii (c - 48) (omega arith)

  digits_value-value_of :
      (s : Text) (acc : ℕ) → All IsDigit s → digits_value digit s true acc ≡ some (value_of acc s)
  unfolding digits_value value_of
  digits_value-value_of [] acc h = refl
  digits_value-value_of (c ∷ s) acc h =
      rw (digit_of c h.0, digits_value) (digits_value-value_of s (acc * 10 + (c - 48)) h.1)

  signed_value-digits :
      (c : ℕ) (s : Text)
      → All IsDigit (c ∷ s)
      → signed_value digit (c ∷ s) ≡ some (pos (value_of 0 (c ∷ s)))
  unfolding signed_value value_of
  signed_value-digits c s h =
      let (l, u) = h.0 in
      let minus : (c == 45) ≡ false = ground arith in
      let plus : (c == 43) ≡ false = ground arith in
      rw (minus, plus, digit_of c h.0, digits_value-value_of s (0 * 10 + (c - 48)) h.1) refl

  zeros-IsDigit : (n : ℕ) (s : Text) → All IsDigit s → All IsDigit (zeros n ++ s)
  unfolding zeros
  zeros-IsDigit zero s h = h
  zeros-IsDigit (suc n) s h = ((omega arith, omega arith), zeros-IsDigit n s h)

  value_of-zeros : (n : ℕ) (s : Text) → value_of 0 (zeros n ++ s) ≡ value_of 0 s
  unfolding zeros value_of
  value_of-zeros zero s = refl
  value_of-zeros (suc n) s = value_of-zeros n s

  zeros-cons : (n c : ℕ) (s : Text) → (d : ℕ) × ((t : Text) × (zeros n ++ c ∷ s ≡ d ∷ t))
  unfolding zeros
  zeros-cons zero c s = (c, (s, refl))
  zeros-cons (suc n) c s = (48, (zeros n ++ c ∷ s, refl))

  int_of-digits :
      (t s : Text) (c : ℕ) → t ≡ c ∷ s → All IsDigit t → int_of digit t ≡ some (pos (value_of 0 t))
  unfolding int_of
  int_of-digits t s c e h =
      rw (strip_digits t h)
        (let k : All IsDigit (c ∷ s) = subst (All IsDigit) e h in rw e (signed_value-digits c s k))

  behind_dash-code : (s : Text) → behind_dash (codes "PV-" ++ s) ≡ some s
  unfolding behind_dash
  behind_dash-code s = refl

  num-some :
      (t s : Text) (v : ℤ) → behind_dash t ≡ some s → int_of digit s ≡ some v → num digit t ≡ v
  unfolding num
  num-some t s v e h = rw (e, h, num) refl

  -- `_num` of the code that `number` gives a new entry is the number in it, of any size: padding
  -- with zeros does not change what is read back.
  pub num-pv_code : (n : ℕ) → num digit (pv_code n) ≡ pos n
  unfolding num pv_code
  num-pv_code n =
      let width = 4 - length (decimal n) in
      let (c, (s, e)) = decimal-cons n in
      let (d, (t, e')) = zeros-cons width c s in
      let whole : zeros width ++ decimal n ≡ d ∷ t = ap (λ u. zeros width ++ u) e ∙ e' in
      let read =
        int_of-digits (zeros width ++ decimal n) t d whole
          (zeros-IsDigit width (decimal n) (decimal-IsDigit n)) in
      num-some (pv_code n) (zeros width ++ decimal n) (pos n)
        (behind_dash-code (zeros width ++ decimal n))
        (read ∙ ap (λ v. some (pos v)) (value_of-zeros width (decimal n) ∙ value_of-decimal n))
