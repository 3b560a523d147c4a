-- ===== src/Preprocessor/Lines.antt =====
-- `_directives` finds directives in order, none inside another.
use code_analyzer.Prelude.{
  ℕ, zero, suc, ◌+◌, ◌-◌, ◌≤◌, ◌<◌, ◌≡◌, true, inl, inr, some, List, [], ◌∷◌, ltb, length, take,
  drop, Bool-cases, Option-cases, arith,
}
use code_analyzer.Prelude.Text.{Text}
use code_analyzer.Mask.{char_is, take_while}
use code_analyzer.Preprocessor.{
  Directive, is_indent, logical_length, logical_line_end, directive_from, directive_at,
  directives_from, directives,
}
use mathlib.Core.List.{reverse}

-- The directives lie between two offsets, each one behind the one in front of it.
abbrev pub Ordered : ℕ → ℕ → List Directive → Type 0
Ordered low total [] = Unit
Ordered low total (d ∷ ds) =
    (low ≤ d.start) × ((d.start < d.stop) × ((d.stop ≤ total) × Ordered d.stop total ds))

logical_length-le : (s back : Text) → logical_length s back ≤ length s
unfolding logical_length
logical_length-le [] back = omega arith
logical_length-le (c ∷ s) back = ground (arith, logical_length-le s (c ∷ back))

length-drop : (i : ℕ) (text : Text) → length (drop i text) ≡ length text - i
length-drop zero text = omega arith
length-drop (suc i) [] = omega arith
length-drop (suc i) (c ∷ text) = omega (arith, length-drop i text)

-- A directive's own line goes on behind its `#`.
logical_length-hash :
    (cursor : ℕ) (text back : Text)
    → char_is text cursor 35 ≡ true
    → (0 < logical_length (drop cursor text) back) × (cursor < length text)
unfolding char_is logical_length
logical_length-hash cursor [] back h = absurd (cc)
logical_length-hash zero (c ∷ text) back h = (ground arith, omega arith)
logical_length-hash (suc cursor) (c ∷ text) back h =
    let (more, inside) = logical_length-hash cursor text back h in (more, omega (arith, inside))

directive_at-Ordered :
    (masked : Text) (begin : ℕ) (d : Directive)
    → directive_at masked begin ≡ some d
    → (begin ≤ d.start) × ((d.start < d.stop) × (d.stop ≤ length masked))
unfolding directive_at directive_from logical_line_end
directive_at-Ordered masked begin d h =
    let cursor = begin + length (take_while is_indent (drop begin masked)) in
    elim (Bool-cases (char_is masked cursor 35)) [
      | inl e ↦
          let back = reverse (take cursor masked) in
          let (more, inside) = logical_length-hash cursor masked back e in
          let upto = logical_length-le (drop cursor masked) back in
          let size = length-drop cursor masked in
          let from : d.start ≡ cursor = ground (arith, h, e) in
          let to : d.stop ≡ cursor + logical_length (drop cursor masked) back =
            ground (arith, h, e) in
          (omega arith, (omega arith, omega arith))
      | inr e ↦ absurd (ground (arith, h, e))
    ]

directives_from-Ordered :
    (masked : Text) (starts : List ℕ) (consumed : ℕ)
    → Ordered consumed (length masked) (directives_from masked starts consumed)
unfolding directives_from
directives_from-Ordered masked [] consumed = tt
directives_from-Ordered masked (begin ∷ starts) consumed = elim (Bool-cases (ltb begin consumed)) [
  | inl e ↦ rw (e, Ordered) (directives_from-Ordered masked starts consumed)
  | inr e ↦ elim (Option-cases (directive_at masked begin)) [
    | inl e' ↦ rw (e, e', Ordered) (directives_from-Ordered masked starts consumed)
    | inr (d, e') ↦
        let (from, (more, upto)) = directive_at-Ordered masked begin d e' in
        rw (e, e', Ordered)
          (ground arith, (more, (upto, directives_from-Ordered masked starts d.stop)))
  ]
]

-- The directives of a text stand in order: each has characters, lies within the text and begins
-- where the one in front of it has ended or later, whatever offsets are taken for line starts.
pub directives-Ordered :
    (masked : Text) (starts : List ℕ) → Ordered 0 (length masked) (directives masked starts)
unfolding directives
directives-Ordered masked starts = directives_from-Ordered masked starts 0
