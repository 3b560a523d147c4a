-- ===== src/Includes.antt =====
-- includes.py: which file of the tree an `#include` means.
use code_analyzer.Prelude.{
  ℕ, zero, suc, ◌+◌, ◌-◌, ◌||◌, ◌&&◌, Bool, true, false, not, Option, none, some, List, [], ◌∷◌,
  ◌++◌, map, foldl, ◌==◌, if◌then◌else◌, length, take, drop, any,
}
use code_analyzer.Prelude.Text.{Text, codes, text_eq, text_lt, is_empty}
use code_analyzer.Prelude.Dict.{lookup, insert}
use code_analyzer.Prelude.Sort.{sorted}
pub mod Paths
pub mod Found
mod Examples

-- `text.split("/")`, and the part in front of the first slash with the parts behind it.
unfoldable pub split_parts : Text → Text × List Text
split_parts [] = ([], [])
split_parts (c ∷ s) =
    let (first, rest) = split_parts s in if c == 47 then ([], first ∷ rest) else (c ∷ first, rest)

unfoldable pub split_slash : Text → List Text
unfolding split_parts
split_slash s = let (first, rest) = split_parts s in first ∷ rest

-- `"/".join(parts)`
unfoldable pub join_slash : List Text → Text
join_slash [] = []
join_slash (p ∷ []) = p
join_slash (p ∷ q ∷ parts) = p ++ 47 ∷ join_slash (q ∷ parts)

-- `target.replace("\\", "/")`
unfoldable pub with_slashes : Text → Text
with_slashes [] = []
with_slashes (c ∷ s) = (if c == 92 then 47 else c) ∷ with_slashes s

-- `parts.pop()`
unfoldable pub without_last : List Text → List Text
without_last [] = []
without_last (p ∷ []) = []
without_last (p ∷ q ∷ parts) = p ∷ without_last (q ∷ parts)

-- The body of the loop of `normalize_include`.
unfoldable pub add_part : List Text → Text → List Text
unfolding without_last
add_part parts part =
    if is_empty part || text_eq part (codes ".")
    then parts
    else if text_eq part (codes "..") && not (is_empty parts)
    then without_last parts
    else parts ++ part ∷ []

-- `normalize_include`
unfoldable pub normalize_include : Text → Text
unfolding split_slash join_slash with_slashes add_part
normalize_include target = join_slash (foldl add_part [] (split_slash (with_slashes target)))

-- `IncludeIndex`; `by_path` maps each path to itself, so it is the list of its keys.
pub record IncludeIndex : Type 0 where
  by_path : List Text
  by_suffix : List (Text × List Text)

-- `by_suffix.setdefault(tail, []).append(path)`
unfoldable pub add_tail : Text → List (Text × List Text) → Text → List (Text × List Text)
add_tail path by_suffix tail =
    insert tail (elim (lookup tail by_suffix) [ none ↦ [] | some paths ↦ paths ] ++ path ∷ [])
      by_suffix

-- The tails `"/".join(parts[depth:])`.
unfoldable pub tails_of : List Text → List Text
unfolding join_slash
tails_of [] = []
tails_of (p ∷ parts) = join_slash (p ∷ parts) ∷ tails_of parts

-- The body of the loop of `include_index`.
unfoldable pub add_path : List (Text × List Text) → Text → List (Text × List Text)
unfolding add_tail tails_of split_slash
add_path by_suffix path = foldl (add_tail path) by_suffix (tails_of (split_slash path))

-- `include_index`, of the paths of the inventory.
unfoldable pub include_index : List Text → IncludeIndex
unfolding add_path
include_index paths = record {
  by_path = sorted text_lt paths;
  by_suffix = foldl add_path [] (sorted text_lt paths);
}

-- `by_suffix.get(tail, ())`
unfoldable pub paths_with : Text → List (Text × List Text) → List Text
paths_with tail by_suffix = elim (lookup tail by_suffix) [ none ↦ [] | some paths ↦ paths ]

-- `matches[0] if len(matches) == 1 else None`
unfoldable pub only_one : List Text → Option Text
only_one [] = none
only_one (p ∷ []) = some p
only_one (p ∷ q ∷ paths) = none

unfoldable pub in_directory : Text → Text → Text
in_directory directory target = if is_empty directory then target else directory ++ 47 ∷ target

-- `resolve_include`
unfoldable pub resolve_include : Text → Text → IncludeIndex → Option Text
unfolding normalize_include in_directory paths_with only_one
resolve_include target directory index =
    let normalized = normalize_include (in_directory directory target) in
    let plain = normalize_include target in
    if any (text_eq normalized) index.by_path
    then some normalized
    else if any (text_eq plain) index.by_path
    then some plain
    else only_one (paths_with plain index.by_suffix)

-- `path[: -len(plain) - 1]`, where the path ends with a slash and `plain`.
unfoldable pub root_of : Text → Text → Option Text
root_of plain path =
    let size = length path - (length plain + 1) in
    if text_eq (drop size path) (47 ∷ plain) then some (take size path) else none

unfoldable pub without_text : Text → List Text → List Text
without_text t [] = []
without_text t (u ∷ us) = let rest = without_text t us in if text_eq t u then rest else u ∷ rest

-- `list(dict.fromkeys(items))`
unfoldable pub once : List Text → List Text
unfolding without_text
once [] = []
once (t ∷ ts) = let rest = once ts in t ∷ without_text t rest

-- The loop of `candidate_dirs`.
unfoldable pub roots_of : Text → List Text → List Text
unfolding root_of
roots_of plain [] = []
roots_of plain (path ∷ paths) =
    let rest = roots_of plain paths in
    if text_eq path plain
    then [] ∷ rest
    else elim (root_of plain path) [ none ↦ rest | some root ↦ root ∷ rest ]

-- `candidate_dirs`
unfoldable pub candidate_dirs : Text → IncludeIndex → List Text
unfolding normalize_include roots_of once paths_with
candidate_dirs name index =
    let plain = normalize_include name in
    if is_empty plain
    then []
    else sorted text_lt (once (roots_of plain (paths_with plain index.by_suffix)))
