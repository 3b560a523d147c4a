-- ===== src/Mask/Bounds.antt =====
-- Every round of the loop of `_mask_source` goes on, so the loop ends.
use code_analyzer.Prelude.{
  ℕ, zero, suc, ◌+◌, ◌-◌, ◌≤◌, ◌<◌, ◌≡◌, inl, inr, Bool, true, false, some, [], ◌∷◌, ◌++◌, ltb,
  ◌==◌, if◌then◌else◌, length, take, drop, Bool-cases, Option-cases, arith,
}
use code_analyzer.Prelude.Text.{Text}
use code_analyzer.Mask.{
  find, find_from, literal_end, close_literal, mask_literal, block_comment, raw_behind,
  raw_unterminated, mask_raw_string, move_at, plain, line_comment, line_comment_end,
}

find_from-le :
    (pattern : Text) (offset : ℕ) (text : Text) (k : ℕ)
    → find_from pattern offset text ≡ some k
    → offset ≤ k
unfolding find_from
find_from-le pattern offset text k h = elim (Option-cases (find pattern (drop offset text))) [
  | inl e ↦ ground (arith, e)
  | inr (i, e) ↦ ground (arith, e)
]

literal_end-le :
    (quote : ℕ) (s : Text) (skip cursor : ℕ) → cursor ≤ (literal_end quote s skip cursor).1
unfolding literal_end
literal_end-le quote [] skip cursor = omega arith
literal_end-le quote (c ∷ s) (suc skip) cursor =
    omega (arith, literal_end-le quote s skip (suc cursor))
literal_end-le quote (c ∷ s) zero cursor =
    ground (arith, literal_end-le quote s (if c == 92 then 1 else 0) (suc cursor))

close_literal-forward :
    (text : Text) (offset : ℕ) (r : Bool × ℕ)
    → offset + 1 ≤ r.1
    → offset < (close_literal text offset r).next
unfolding close_literal
close_literal-forward text offset (true, cursor) h = omega arith
close_literal-forward text offset (false, cursor) h = omega arith

mask_literal-forward :
    (text : Text) (offset quote : ℕ) → offset < (mask_literal text offset quote).next
unfolding mask_literal
mask_literal-forward text offset quote =
    close_literal-forward text offset _
      (literal_end-le quote (drop (offset + 1) text) 0 (offset + 1))

module _ (text : Text) (offset : ℕ) (h : offset < length text) where
  block_comment-forward : offset < (block_comment text offset).next
  unfolding block_comment
  block_comment-forward = elim (Option-cases (find_from (42 ∷ 47 ∷ []) (offset + 2) text)) [
    | inl e ↦ rw (e, block_comment) h
    | inr (k, e) ↦
        rw (e, block_comment) (omega (arith, find_from-le (42 ∷ 47 ∷ []) (offset + 2) text k e))
  ]

  raw_behind-forward : (paren : ℕ) → offset < paren → offset < (raw_behind text offset paren).next
  unfolding raw_behind raw_unterminated
  raw_behind-forward paren p =
      elim (Option-cases (
        find_from (41 ∷ take (paren - (offset + 1)) (drop (offset + 1) text) ++ 34 ∷ []) (paren + 1)
          text)) [
            | inl e ↦ rw (e, raw_behind, raw_unterminated) h
            | inr (k, e) ↦
                rw (e, raw_behind)
                  (omega (
                    arith,
                    find_from-le
                        (41 ∷ take (paren - (offset + 1)) (drop (offset + 1) text) ++ 34 ∷ [])
                        (paren + 1) text k e,
                  ))
          ]

  mask_raw_string-forward : offset < (mask_raw_string text offset).next
  unfolding mask_raw_string raw_unterminated
  mask_raw_string-forward = elim (Option-cases (find_from (40 ∷ []) (offset + 1) text)) [
    | inl e ↦ rw (e, mask_raw_string, raw_unterminated) h
    | inr (k, e) ↦ elim (Bool-cases (ltb 18 (k - offset))) [
      | inl t ↦ rw (e, t, mask_raw_string) h
      | inr t ↦
          rw (e, t, mask_raw_string)
            (raw_behind-forward k (omega (arith, find_from-le (40 ∷ []) (offset + 1) text k e)))
    ]
  ]

  pub move_at-forward : (char : ℕ) → offset < (move_at text offset char).next
  unfolding move_at plain line_comment line_comment_end
  move_at-forward char =
      ground (
        arith,
        block_comment-forward,
        mask_raw_string-forward,
        mask_literal-forward text offset char,
      )
