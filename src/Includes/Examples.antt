-- ===== src/Includes/Examples.antt =====
-- A tree of three files.
use code_analyzer.Prelude.{◌≡◌, refl, some, List, [], ◌∷◌}
use code_analyzer.Prelude.Text.{Text, codes}
use code_analyzer.Prelude.Sort.{sorted}
use code_analyzer.Prelude.Dict.{lookup, insert}
use code_analyzer.Includes.{normalize_include, include_index, resolve_include, candidate_dirs}
use code_analyzer.Includes.Found.{IsIn, resolve_include-IsIn}

abbrev tree : List Text
tree = codes "b/inc/x.h" ∷ codes "a/x.h" ∷ codes "a/main.c" ∷ []

normalizes : normalize_include (codes "a\\./b//../x.h") ≡ codes "a/x.h"
unfolding normalize_include
normalizes = refl

-- The second `..` takes the first one back, so that a target two levels above the tree names a
-- file in it.
two_levels_up : normalize_include (codes "../../x.h") ≡ codes "x.h"
unfolding normalize_include
two_levels_up = refl

dirs_named : candidate_dirs (codes "x.h") (include_index tree) ≡ codes "a" ∷ codes "b/inc" ∷ []
unfolding candidate_dirs include_index sorted lookup insert
dirs_named = refl

resolved :
    resolve_include (codes "inc/x.h") (codes "a") (include_index tree) ≡ some (codes "b/inc/x.h")
unfolding resolve_include include_index sorted lookup insert
resolved = refl

resolve_include-IsIn_example : IsIn tree (codes "b/inc/x.h")
resolve_include-IsIn_example =
    resolve_include-IsIn tree (codes "inc/x.h") (codes "a") (codes "b/inc/x.h") resolved
