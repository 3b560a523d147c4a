-- ===== src/Units/Segments.antt =====
-- `_segments` and `_absorb_blank` tile the file.
use mathlib.Core.List.{map-append}
use code_analyzer.Prelude.{
  ℕ, ◌≤◌, ◌<◌, refl, subst, ◌||◌, Option, none, some, List, [], ◌∷◌, ◌++◌, map, ltb, leb,
  if◌then◌else◌, arith, inl, inr, Bool-cases, foldl_inv, append-nil,
}
use code_analyzer.Prelude.Sort.{sorted}
use code_analyzer.Units.{
  Symbol, Segment, claim, claim_rest, claimed_of, module_scope_of, limit_of, starts_before,
}
use code_analyzer.Units.Tiling.{Tiles, Tiles-append}

abbrev pub span : Segment → ℕ × ℕ
span s = (s.start, s.end)

-- The segments cover `lo` to `hi`, one after the other.
abbrev pub TilesBy : ℕ → ℕ → List Segment → Type 0
TilesBy lo hi segments = Tiles lo hi (map span segments)

pub TilesBy-append :
    (lo mid hi : ℕ) (xs ys : List Segment)
    → TilesBy lo mid xs
    → TilesBy mid hi ys
    → TilesBy lo hi (xs ++ ys)
TilesBy-append lo mid hi xs ys h k =
    rw map-append (Tiles-append lo mid hi (map span xs) (map span ys) h k)

pub TilesBy-snoc :
    (lo : ℕ) (xs : List Segment) (s : Segment)
    → TilesBy lo s.start xs
    → s.start < s.end
    → TilesBy lo s.end (xs ++ s ∷ [])
TilesBy-snoc lo xs s h k = TilesBy-append lo s.start s.end xs (s ∷ []) h (refl, k, refl)

-- The loop of `_segments` has tiled the file up to its cursor.
record ClaimInv (limit : ℕ) (c : List Segment × ℕ) : Type 0 where
  tiled : TilesBy 0 c.1 c.0
  within : c.1 ≤ limit

gap-Tiles :
    (claimed : List Segment) (cursor start : ℕ)
    → cursor ≤ start
    → TilesBy 0 cursor claimed
    → TilesBy 0 start
        (claimed ++ (if ltb cursor start then module_scope_of cursor start ∷ [] else []))
gap-Tiles claimed cursor start h t = elim (Bool-cases (ltb cursor start)) [
  | inl e ↦ rw e (TilesBy-snoc 0 claimed (module_scope_of cursor start) t (ground arith))
  | inr e ↦ rw (e, append-nil) (subst (λ n. TilesBy 0 n claimed) (ground arith) t)
]

claim-Inv :
    (limit : ℕ) (c : List Segment × ℕ) (s : Symbol)
    → ClaimInv limit c
    → ClaimInv limit (claim limit c s)
unfolding claim
claim-Inv limit (claimed, cursor) s inv =
    elim (Bool-cases
      (ltb s.start_byte cursor || ltb limit s.end_byte || leb s.end_byte s.start_byte)) [
        | inl e ↦ rw e inv
        | inr e ↦ rw e (record {
          tiled =
              TilesBy-snoc 0 _ _ (gap-Tiles claimed cursor s.start_byte (ground arith) inv.tiled)
                (ground arith);
          within = ground arith;
        })
      ]

claim_rest-Tiles :
    (limit size : ℕ) (c : List Segment × ℕ)
    → limit ≤ size
    → ClaimInv limit c
    → TilesBy 0 size (claim_rest limit size c)
unfolding claim_rest
claim_rest-Tiles limit size (claimed, cursor) h inv = elim (Bool-cases (ltb cursor limit)) [
  | inl e ↦
      let upto = TilesBy-snoc 0 claimed (module_scope_of cursor limit) inv.tiled (ground arith) in
      elim (Bool-cases (ltb limit size)) [
        | inl e' ↦ rw (e, e') (TilesBy-snoc 0 _ _ upto (ground arith))
        | inr e' ↦
            rw (e, e')
              (subst (λ n. TilesBy 0 n (claimed ++ module_scope_of cursor limit ∷ []))
                (ground arith) upto)
      ]
  | inr e ↦ elim (Bool-cases (ltb cursor size)) [
    | inl e' ↦ rw (e, e') (TilesBy-snoc 0 _ _ inv.tiled (ground arith))
    | inr e' ↦
        rw (e, e') (subst (λ n. TilesBy 0 n claimed) (let w = inv.within in ground arith) inv.tiled)
  ]
]

limit-le : (unparsed : Option ℕ) (size : ℕ) → limit_of unparsed size ≤ size
limit-le none size = omega arith
limit-le (some n) size = omega arith

pub claimed_of-Tiles :
    (functions : List Symbol) (unparsed : Option ℕ) (size : ℕ)
    → TilesBy 0 size (claimed_of functions unparsed size)
unfolding claimed_of
claimed_of-Tiles functions unparsed size =
    claim_rest-Tiles (limit_of unparsed size) size _ (limit-le unparsed size) (
      foldl_inv (ClaimInv (limit_of unparsed size)) (claim (limit_of unparsed size))
        (claim-Inv (limit_of unparsed size)) ([], 0) (sorted starts_before functions)
        (record { tiled = refl; within = omega arith }))
