-- ===== src/Includes/Found.antt =====
-- What `resolve_include` finds is in the tree.
use code_analyzer.Prelude.{
  ◌≡◌, ◌∙◌, true, refl, sym, subst, inl, inr, some, List, [], ◌∷◌, foldl_All, foldl_inv, any, All,
  All-map, All-append, Bool-cases, Option-cases, arith,
}
use code_analyzer.Prelude.Text.{Text, text_eq, text_eq_refl, text_lt}
use code_analyzer.Prelude.Dict.{lookup, All-insert, All-lookup}
use code_analyzer.Prelude.Sort.{sorted, any-sorted, All-sorted}
use code_analyzer.Includes.{
  include_index, add_path, add_tail, tails_of, split_slash, paths_with, only_one, in_directory,
  normalize_include, resolve_include,
}

-- The path is one of the tree's.
unfoldable pub IsIn : List Text → Text → Type 0
IsIn paths p = any (text_eq p) paths ≡ true

IsIn-cons : (p : Text) (paths : List Text) (q : Text) → IsIn paths q → IsIn (p ∷ paths) q
unfolding IsIn
IsIn-cons p paths q h = ground (arith, h)

All-IsIn : (paths : List Text) → All (IsIn paths) paths
unfolding IsIn
All-IsIn [] = tt
All-IsIn (p ∷ paths) = (
  rw (text_eq_refl p) refl,
  All-map (IsIn paths) (IsIn (p ∷ paths)) (IsIn-cons p paths) paths (All-IsIn paths),
)

module _ (paths : List Text) where
  -- Every list of the index holds paths of the tree.
  abbrev InTree : Text × List Text → Type 0
  InTree e = All (IsIn paths) e.1

  paths_with-IsIn :
      (tail : Text) (by_suffix : List (Text × List Text))
      → All InTree by_suffix
      → All (IsIn paths) (paths_with tail by_suffix)
  unfolding paths_with
  paths_with-IsIn tail by_suffix h = elim (Option-cases (lookup tail by_suffix)) [
    | inl e ↦ rw (e, All) tt
    | inr (found, e) ↦ rw (e, All) (All-lookup InTree tail found by_suffix h e)
  ]

  add_tail-InTree :
      (p : Text)
      → IsIn paths p
      → (by_suffix : List (Text × List Text)) (tail : Text) → All InTree by_suffix
      → All InTree (add_tail p by_suffix tail)
  unfolding add_tail paths_with
  add_tail-InTree p i by_suffix tail h =
      All-insert InTree tail _ by_suffix
        (All-append (IsIn paths) (paths_with tail by_suffix) (p ∷ [])
          (paths_with-IsIn tail by_suffix h) (i, tt))
        h

  add_path-InTree :
      (by_suffix : List (Text × List Text)) (p : Text)
      → IsIn paths p
      → All InTree by_suffix
      → All InTree (add_path by_suffix p)
  unfolding add_path
  add_path-InTree by_suffix p i h =
      foldl_inv (All InTree) (add_tail p) (add_tail-InTree p i) by_suffix (tails_of (split_slash p))
        h

  by_suffix-InTree : All InTree (include_index paths).by_suffix
  unfolding include_index
  by_suffix-InTree =
      foldl_All (All InTree) (IsIn paths) add_path add_path-InTree [] (sorted text_lt paths)
        (All-sorted text_lt (IsIn paths) paths (All-IsIn paths)) tt

  only_one-IsIn :
      (found : List Text) (p : Text)
      → All (IsIn paths) found
      → only_one found ≡ some p
      → IsIn paths p
  unfolding only_one
  only_one-IsIn [] p h e = absurd (cc)
  only_one-IsIn (q ∷ []) p h e = let same : q ≡ p = cc in subst (IsIn paths) same h.0
  only_one-IsIn (q ∷ r ∷ found) p h e = absurd (cc)

  by_path-IsIn : (p : Text) → any (text_eq p) (include_index paths).by_path ≡ true → IsIn paths p
  unfolding include_index IsIn
  by_path-IsIn p h = sym (any-sorted text_lt (text_eq p) paths) ∙ h

  -- An include never resolves to a file that the tree does not have.
  pub resolve_include-IsIn :
      (target directory p : Text)
      → resolve_include target directory (include_index paths) ≡ some p
      → IsIn paths p
  unfolding resolve_include
  resolve_include-IsIn target directory p h =
      let index = include_index paths in
      let normalized = normalize_include (in_directory directory target) in
      let plain = normalize_include target in
      elim (Bool-cases (any (text_eq normalized) index.by_path)) [
        | inl e ↦
            let same : normalized ≡ p = let k = rw e at h in cc in
            subst (IsIn paths) same (by_path-IsIn normalized e)
        | inr e ↦ elim (Bool-cases (any (text_eq plain) index.by_path)) [
          | inl e' ↦
              let same : plain ≡ p = let k = rw (e, e') at h in cc in
              subst (IsIn paths) same (by_path-IsIn plain e')
          | inr e' ↦
              only_one-IsIn (paths_with plain index.by_suffix) p
                (paths_with-IsIn plain index.by_suffix by_suffix-InTree) (rw (e, e') at h)
        ]
      ]
