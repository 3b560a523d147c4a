-- ===== src/Preprocessor/Arms.antt =====
-- The arms that `_conditional_arms` returns lie within the text.
use code_analyzer.Prelude.{
  ℕ, zero, suc, ◌≤◌, ◌<◌, Bool, inl, inr, List, [], ◌∷◌, foldl, All, All-append, All-map, length,
  Bool-cases, arith,
}
use code_analyzer.Prelude.Text.{Text, codes, text_eq}
use code_analyzer.Preprocessor.{
  Directive, Arm, Nesting, arm_of, open_arm, next_arm, end_arm, middle_or_end, nest, close_at,
  close_left, conditional_arms, directives, one_of, opening_kinds, middle_kinds, flag_at, top_dead,
}
use code_analyzer.Preprocessor.Lines.{Ordered, directives-Ordered}
use mathlib.Core.List.{reverse}

-- The arm's body stands behind its directive and ends by `now`.
abbrev pub Within : ℕ → Arm → Type 0
Within now a = (a.start < a.body_start) × ((a.body_start ≤ a.body_end) × (a.body_end ≤ now))

Within-mono : (now later : ℕ) → now ≤ later → (a : Arm) → Within now a → Within later a
Within-mono now later h a w = (w.0, (w.1.0, omega (arith, w.1.1)))

close_at-Within :
    (now later : ℕ)
    → now ≤ later
    → (place line : ℕ) (arms : List Arm) → All (Within now) arms
    → All (Within later) (close_at place later line arms)
unfolding close_at
close_at-Within now later h place line [] w = tt
close_at-Within now later h zero line (a ∷ arms) w = (
  (w.0.0, (omega (arith, w.0.1), omega arith)),
  All-map (Within now) (Within later) (Within-mono now later h) arms w.1,
)
close_at-Within now later h (suc place) line (a ∷ arms) w =
    (Within-mono now later h a w.0, close_at-Within now later h place line arms w.1)

-- The directive lies behind `now`.
module _ (starts : List ℕ) (now : ℕ) (item : Directive) (h : now ≤ item.start)
    (l : item.start < item.stop) where
  arm_of-Within :
      (kind : Text) (depth : ℕ) (parent_dead : Bool)
      → Within item.stop (arm_of item kind depth parent_dead starts)
  unfolding arm_of
  arm_of-Within kind depth parent_dead = (l, (omega arith, omega arith))

  later-Within : (arms : List Arm) → All (Within now) arms → All (Within item.stop) arms
  later-Within arms w =
      All-map (Within now) (Within item.stop) (Within-mono now item.stop (omega arith)) arms w

  closed-Within :
      (place line : ℕ) (arms : List Arm)
      → All (Within now) arms
      → All (Within item.stop) (close_at place item.start line arms)
  closed-Within place line arms w =
      All-map (Within item.start) (Within item.stop)
        (Within-mono item.start item.stop (omega arith)) _
        (close_at-Within now item.start h place line arms w)

  end_arm-Within :
      (st : Nesting) (stack : List ℕ)
      → All (Within now) st.arms
      → All (Within item.stop) (end_arm starts st item stack).arms
  unfolding end_arm
  end_arm-Within st [] w = later-Within st.arms w
  end_arm-Within st (top ∷ below) w = closed-Within top _ st.arms w

  next_arm-Within :
      (st : Nesting) (top : ℕ) (below : List ℕ)
      → All (Within now) st.arms
      → All (Within item.stop) (next_arm starts st item top below).arms
  unfolding next_arm
  next_arm-Within st top below w =
      All-append (Within item.stop) _ _ (closed-Within top _ st.arms w)
        (arm_of-Within item.kind (length below) (flag_at (λ a. a.parent_dead) st.arms top), tt)

  middle_or_end-Within :
      (st : Nesting) (stack : List ℕ)
      → All (Within now) st.arms
      → All (Within item.stop) (middle_or_end starts st item stack).arms
  unfolding middle_or_end
  middle_or_end-Within st [] w = elim (Bool-cases (text_eq item.kind (codes "endif"))) [
    | inl e ↦ rw e (end_arm-Within st [] w)
    | inr e ↦ rw e (later-Within st.arms w)
  ]
  middle_or_end-Within st (top ∷ below) w = elim (Bool-cases (one_of item.kind middle_kinds)) [
    | inl e ↦ rw e (next_arm-Within st top below w)
    | inr e ↦ elim (Bool-cases (text_eq item.kind (codes "endif"))) [
      | inl e' ↦ rw (e, e') (end_arm-Within st (top ∷ below) w)
      | inr e' ↦ rw (e, e') (later-Within st.arms w)
    ]
  ]

  nest-Within :
      (st : Nesting) → All (Within now) st.arms → All (Within item.stop) (nest starts st item).arms
  unfolding nest open_arm
  nest-Within st w = elim (Bool-cases (one_of item.kind opening_kinds)) [
    | inl e ↦ rw e (
        All-append (Within item.stop) st.arms _ (later-Within st.arms w)
          (arm_of-Within item.kind (length st.stack) (top_dead st.arms st.stack), tt))
    | inr e ↦ rw e (middle_or_end-Within st st.stack w)
  ]

nested-Within :
    (starts : List ℕ) (total : ℕ) (items : List Directive) (now : ℕ) (st : Nesting)
    → Ordered now total items
    → now ≤ total
    → All (Within now) st.arms
    → All (Within total) (foldl (nest starts) st items).arms
nested-Within starts total [] now st o h w =
    All-map (Within now) (Within total) (Within-mono now total h) st.arms w
nested-Within starts total (d ∷ items) now st o h w =
    nested-Within starts total items d.stop (nest starts st d) o.1.1.1 o.1.1.0
      (nest-Within starts now d o.0 o.1.0 st w)

close_left-Within :
    (total : ℕ) (starts : List ℕ) (places : List ℕ) (arms : List Arm)
    → All (Within total) arms
    → All (Within total) (close_left total starts arms places)
unfolding close_left
close_left-Within total starts [] arms w = w
close_left-Within total starts (place ∷ places) arms w =
    close_left-Within total starts places _
      (close_at-Within total total (omega arith) place _ arms w)

-- The body of every arm of a conditional, closed by a directive or left open at the end of the
-- file, stands behind the arm's own directive, does not end before it begins, and lies within
-- the text.
pub conditional_arms-Within :
    (masked : Text) (starts : List ℕ)
    → All
        (Within (length masked))
        (conditional_arms (directives masked starts) (length masked) starts).0
unfolding conditional_arms
conditional_arms-Within masked starts =
    let start : Nesting = record { arms = []; stack = []; problems = [] } in
    let st = foldl (nest starts) start (directives masked starts) in
    close_left-Within (length masked) starts (reverse st.stack) st.arms (
      nested-Within starts (length masked) (directives masked starts) 0 start
        (directives-Ordered masked starts) (omega arith) tt)
