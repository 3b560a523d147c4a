-- ===== src/Mask/Examples.antt =====
-- `_mask_source` on short texts.
use code_analyzer.Prelude.{◌≡◌, refl, some, List, [], ◌∷◌, ◌++◌, length}
use code_analyzer.Prelude.Text.{Text, codes}
use code_analyzer.Plan.{line_starts}
use code_analyzer.Mask.{mask_source, Problem, unterminated_literal}
use code_analyzer.Mask.Blank.{Masks}
use code_analyzer.Mask.Source.{mask_source-Masks, line_starts-mask_source}

masks_comments : mask_source (codes "a/*b*/c//d") ≡ some (codes "a     c   ", [])
unfolding mask_source
masks_comments = refl

masks_literals :
    mask_source (codes "x='\\'';y=\"{\";n=1'0;") ≡ some (codes "x='  ';y=\" \";n=1'0;", [])
unfolding mask_source
masks_literals = refl

masks_raw_string : mask_source (codes "u8R\"-(})\"-)-\";") ≡ some (codes "u8R\"        \";", [])
unfolding mask_source
masks_raw_string = refl

-- Two lines, a comment that hides a brace and a literal that the line breaks off.
abbrev broken_off : Text
broken_off = codes "f(//{" ++ 10 ∷ codes "\"ab" ++ 10 ∷ codes "}"

abbrev broken_off_masked : Text
broken_off_masked = codes "f(   " ++ 10 ∷ codes "\"  " ++ 10 ∷ codes "}"

masks_broken_off : mask_source broken_off ≡ some (broken_off_masked, unterminated_literal ∷ [])
unfolding mask_source
masks_broken_off = refl

mask_source-Masks_example :
    (chars : Text) × ((problems : List Problem) × ((mask_source broken_off ≡ some (chars, problems))
        × Masks broken_off chars))
mask_source-Masks_example = mask_source-Masks broken_off

line_starts-mask_source_example :
    (length broken_off_masked ≡ length broken_off)
    × (line_starts broken_off_masked ≡ line_starts broken_off)
line_starts-mask_source_example =
    line_starts-mask_source broken_off broken_off_masked (unterminated_literal ∷ [])
      masks_broken_off
