-- ===== src/Units/Absorb.antt =====
-- `_absorb_blank` keeps a tiling of the file, and keeps the functions.
use code_analyzer.Prelude.{
  ℕ, ◌<◌, ◌≡◌, refl, sym, subst, Option, none, some, List, [], ◌∷◌, foldl, length, arith, inl, inr,
  Bool-cases,
}
use code_analyzer.Prelude.Text.{Text}
use code_analyzer.Units.{
  Symbol, Segment, Absorbed, absorb, absorb_blank, finish_absorb, extend_last, is_blank,
  segments_of,
}
use code_analyzer.Units.Segments.{TilesBy, TilesBy-snoc, claimed_of-Tiles}

extend_last-Tiles :
    (lo c e : ℕ) (s : Segment) (xs : List Segment)
    → c < e
    → TilesBy lo c (s ∷ xs)
    → TilesBy lo e (extend_last e (s ∷ xs))
unfolding extend_last
extend_last-Tiles lo c e s [] h t = (t.0, ground arith, refl)
extend_last-Tiles lo c e s (x ∷ xs) h t = (t.0, t.1, extend_last-Tiles s.end c e x xs h t.2)

-- Up to the offset `c`: either the result tiles it, or only blanks were met.
pub data AbsorbInv (c : ℕ) : Absorbed → Type 0 where
  tiled : (a : Absorbed) → a.pending ≡ none → TilesBy 0 c a.result → AbsorbInv c a
  waiting : (a : Absorbed) → a.pending ≡ some 0 → a.result ≡ [] → 0 < c → AbsorbInv c a

pub absorb-Inv :
    (raw : Text) (c : ℕ) (result : List Segment) (pending : Option ℕ) (s : Segment)
    → s.start ≡ c
    → s.start < s.end
    → AbsorbInv c (record { result = result; pending = pending })
    → AbsorbInv s.end (absorb raw (record { result = result; pending = pending }) s)
unfolding absorb
absorb-Inv raw c [] pending s e h (tiled _ p t) = elim (Bool-cases (is_blank raw s)) [
  | inl b ↦ rw b (waiting _ (rw p (ground arith)) refl (ground arith))
  | inr b ↦ rw b (tiled _ refl (rw p (ground arith, h, refl)))
]
absorb-Inv raw c [] pending s e h (waiting _ p r pos) = elim (Bool-cases (is_blank raw s)) [
  | inl b ↦ rw b (waiting _ (rw p refl) refl (ground arith))
  | inr b ↦ rw b (tiled _ refl (rw p (refl, ground arith, refl)))
]
absorb-Inv raw c (x ∷ xs) pending s e h (tiled _ p t) = elim (Bool-cases (is_blank raw s)) [
  | inl b ↦ rw b (tiled _ p (extend_last-Tiles 0 c s.end x xs (ground arith) t))
  | inr b ↦ rw b (
      tiled _ refl
        (rw p (TilesBy-snoc 0 (x ∷ xs) s (subst (λ n. TilesBy 0 n (x ∷ xs)) (sym e) t) h)))
]
absorb-Inv raw c (x ∷ xs) pending s e h (waiting _ p r pos) = absurd (cc)

absorb_loop-Inv :
    (raw : Text) (c hi : ℕ) (a : Absorbed) (xs : List Segment)
    → TilesBy c hi xs
    → AbsorbInv c a
    → AbsorbInv hi (foldl (absorb raw) a xs)
absorb_loop-Inv raw c hi a [] t inv = subst (λ n. AbsorbInv n a) t inv
absorb_loop-Inv raw c hi a (s ∷ xs) t inv =
    absorb_loop-Inv raw s.end hi (absorb raw a s) xs t.2
      (absorb-Inv raw c a.result a.pending s t.0 t.1 inv)

finish_absorb-Tiles :
    (size : ℕ) (a : Absorbed) → AbsorbInv size a → TilesBy 0 size (finish_absorb size a)
unfolding finish_absorb
finish_absorb-Tiles size a (tiled _ p t) = rw p t
finish_absorb-Tiles size a (waiting _ p r pos) = rw (p, r) (refl, pos, refl)

pub absorb_blank-Tiles :
    (segments : List Segment) (raw : Text) (size : ℕ)
    → TilesBy 0 size segments
    → TilesBy 0 size (absorb_blank segments raw size)
unfolding absorb_blank
absorb_blank-Tiles segments raw size t = finish_absorb-Tiles size _ (
    absorb_loop-Inv raw 0 size (record { result = []; pending = none }) segments t
      (tiled _ refl refl))

-- The segments of a file cover its text from the first character to the last, each non-empty and
-- each starting where the one before it ends, whatever extents the parser reports.
pub segments_of-Tiles :
    (functions : List Symbol) (unparsed : Option ℕ) (raw : Text)
    → TilesBy 0 (length raw) (segments_of functions unparsed raw)
unfolding segments_of
segments_of-Tiles functions unparsed raw =
    absorb_blank-Tiles _ raw (length raw) (claimed_of-Tiles functions unparsed (length raw))
