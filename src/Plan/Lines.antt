-- ===== src/Plan/Lines.antt =====
-- `line_starts` and `line_of` number lines as an editor does.
use code_analyzer.Prelude.{
  ℕ, zero, suc, ◌+◌, ◌≤◌, ◌≡◌, refl, [], ◌∷◌, ◌==◌, if◌then◌else◌, arith, inl, inr, Bool-cases,
  take,
}
use code_analyzer.Prelude.Text.{Text}
use code_analyzer.Plan.{line_starts, starts_from, line_of}

pub newlines : Text → ℕ
newlines [] = 0
newlines (c ∷ s) = (if c == 10 then 1 else 0) + newlines s

line_of-above : (k offset : ℕ) (s : Text) → offset ≤ k → line_of (starts_from k s) offset ≡ 0
unfolding line_of
line_of-above k offset [] h = refl
line_of-above k offset (c ∷ s) h = elim (Bool-cases (c == 10)) [
  | inl e ↦ rw e (ground arith)
  | inr e ↦ rw e (line_of-above (k + 1) offset s (omega arith))
]

line_of-starts_from : (k n : ℕ) (s : Text) → line_of (starts_from k s) (k + n) ≡ newlines (take n s)
unfolding line_of newlines
line_of-starts_from k zero s = line_of-above k (k + 0) s (omega arith)
line_of-starts_from k (suc n) [] = refl
line_of-starts_from k (suc n) (c ∷ s) =
    let e' : k + suc n ≡ (k + 1) + n = omega arith in
    elim (Bool-cases (c == 10)) [
      | inl e ↦ rw (e, e') (ground (arith, line_of-starts_from (k + 1) n s))
      | inr e ↦ rw (e, e') (ground (arith, line_of-starts_from (k + 1) n s))
    ]

-- The line of an offset is one more than the number of line breaks in front of it.
pub line_of-line_starts :
    (text : Text) (offset : ℕ) → line_of (line_starts text) offset ≡ 1 + newlines (take offset text)
unfolding line_of line_starts
line_of-line_starts text offset = ground (arith, line_of-starts_from 0 offset text)
