-- ===== src/Preprocessor/Examples.antt =====
-- The directives of short texts.
use code_analyzer.Prelude.{ℕ, ◌≡◌, refl, Bool, true, false, List, [], ◌∷◌, ◌++◌, map, length, All}
use code_analyzer.Prelude.Text.{Text, codes}
use code_analyzer.Prelude.Sort.{sorted}
use code_analyzer.Plan.{line_starts}
use code_analyzer.Preprocessor.{
  directives, conditional_arms, merge_spans, unterminated_conditional, unbalanced_endif, Arm,
  Imbalance,
}
use code_analyzer.Preprocessor.Lines.{Ordered, directives-Ordered}
use code_analyzer.Preprocessor.Arms.{Within, conditional_arms-Within}
use code_analyzer.Preprocessor.Spans.{covers, Apart, merge_spans-covers}

-- The text of some lines, each ended by a line break.
abbrev text_of : List Text → Text
text_of [] = []
text_of (line ∷ lines) = line ++ 10 ∷ text_of lines

abbrev arms_of : Text → List Arm × List Imbalance
arms_of text =
    conditional_arms (directives text (line_starts text)) (length text) (line_starts text)

-- A dead arm with an arm inside it, and a live one that stays open.
abbrev branches : Text
branches = text_of (
    codes "#if 0"
    ∷ codes "#ifdef A"
    ∷ codes "a;"
    ∷ codes "#endif"
    ∷ codes "#else"
    ∷ codes "b;"
    ∷ [])

branches_dead : map (λ a. a.dead) (arms_of branches).0 ≡ true ∷ true ∷ false ∷ []
unfolding conditional_arms directives line_starts
branches_dead = refl

branches_open : (arms_of branches).1 ≡ unterminated_conditional ∷ []
unfolding conditional_arms directives line_starts
branches_open = refl

lone_endif : (arms_of (text_of (codes "#endif" ∷ []))).1 ≡ unbalanced_endif ∷ []
unfolding conditional_arms directives line_starts
lone_endif = refl

-- A backslash splices the next line to the directive's own.
spliced :
    map {B = ℕ × ℕ}
      (λ d. (d.start, d.stop))
      (directives (text_of (codes "#if A\\" ∷ codes "B" ∷ codes "c" ∷ [])) (0 ∷ 7 ∷ 9 ∷ []))
    ≡ (0, 8) ∷ []
unfolding directives
spliced = refl

-- White space between `#` and `if` is allowed in C, and it makes the arm live: `split` then takes
-- the `#` for the first word, so the condition that is compared with 0 is `if 0`.
blank_behind_hash_live :
    map {B = Text × Bool}
      (λ a. (a.condition, a.dead))
      (arms_of (text_of (codes "# if 0" ∷ codes "a;" ∷ codes "#endif" ∷ []))).0
    ≡ (codes "if 0", false) ∷ []
unfolding conditional_arms directives line_starts
blank_behind_hash_live = refl

abbrev overlapping : List (ℕ × ℕ)
overlapping = (9, 12) ∷ (0, 3) ∷ (2, 5) ∷ (7, 7) ∷ (5, 6) ∷ []

overlapping_merged : merge_spans overlapping ≡ (0, 6) ∷ (9, 12) ∷ []
unfolding merge_spans sorted
overlapping_merged = refl

directives-Ordered_example :
    Ordered 0 (length branches) (directives branches (line_starts branches))
directives-Ordered_example = directives-Ordered branches (line_starts branches)

conditional_arms-Within_example : All (Within (length branches)) (arms_of branches).0
conditional_arms-Within_example = conditional_arms-Within branches (line_starts branches)

merge_spans-covers_example :
    ((k : ℕ) → covers k (merge_spans overlapping) ≡ covers k overlapping)
    × Apart (merge_spans overlapping)
merge_spans-covers_example = merge_spans-covers overlapping
