-- ===== src/Preprocessor/Spans.antt =====
-- `_merge_spans` covers the same offsets by spans that lie apart.
use code_analyzer.Prelude.{
  ℕ, ◌≤◌, ◌<◌, ◌≡◌, ◌||◌, ◌&&◌, Bool, true, false, refl, inl, inr, List, [], ◌∷◌, foldl, ltb, leb,
  any, All, All-map, foldl_inv, Bool-cases, arith, ◌∙◌,
}
use code_analyzer.Prelude.Sort.{sorted, IsSorted, any-sorted, sorted-IsSorted}
use code_analyzer.Preprocessor.{
  span_lt, join_span, merge_span, merge_spans, dead_bodies, in_dead, Arm,
}

-- The offset is in a span of the list.
pub covers : ℕ → List (ℕ × ℕ) → Bool
covers k spans = any (λ s. leb s.0 k && ltb k s.1) spans

-- Each span has an offset, and ends in front of the next one with a gap between them.
abbrev pub Apart : List (ℕ × ℕ) → Type 0
Apart [] = Unit
Apart (s ∷ []) = s.0 < s.1
Apart (s ∷ t ∷ spans) = (s.0 < s.1) × ((s.1 < t.0) × Apart (t ∷ spans))

-- No span of the list begins behind `low`.
abbrev BeginsBy : ℕ → List (ℕ × ℕ) → Type 0
BeginsBy low [] = Unit
BeginsBy low (s ∷ spans) = (s.0 ≤ low) × BeginsBy low spans

covers-join_span :
    (k : ℕ) (merged : List (ℕ × ℕ)) (s : ℕ × ℕ)
    → BeginsBy s.0 merged
    → covers k (join_span merged s) ≡ covers k merged || (leb s.0 k && ltb k s.1)
unfolding covers join_span
covers-join_span k [] s h = ground arith
covers-join_span k (m ∷ []) s h = ground (arith, h.0)
covers-join_span k (m ∷ n ∷ merged) s h = rw (covers-join_span k (n ∷ merged) s h.1) (ground arith)

covers-merge_span :
    (k : ℕ) (merged : List (ℕ × ℕ)) (s : ℕ × ℕ)
    → BeginsBy s.0 merged
    → covers k (merge_span merged s) ≡ covers k merged || (leb s.0 k && ltb k s.1)
unfolding merge_span
covers-merge_span k merged s h = ground (arith, covers-join_span k merged s h)

BeginsBy-mono :
    (low high : ℕ) (merged : List (ℕ × ℕ)) → low ≤ high → BeginsBy low merged → BeginsBy high merged
BeginsBy-mono low high [] l h = tt
BeginsBy-mono low high (m ∷ merged) l h = (omega (arith, h.0), BeginsBy-mono low high merged l h.1)

join_span-BeginsBy :
    (low : ℕ) (merged : List (ℕ × ℕ)) (s : ℕ × ℕ)
    → s.0 ≤ low
    → BeginsBy s.0 merged
    → BeginsBy low (join_span merged s)
unfolding join_span
join_span-BeginsBy low [] s l h = (l, tt)
join_span-BeginsBy low (m ∷ []) s l h = elim (Bool-cases (leb s.0 m.1)) [
  | inl e ↦ rw (e, BeginsBy) (omega (arith, h.0), tt)
  | inr e ↦ rw (e, BeginsBy) (omega (arith, h.0), (l, tt))
]
join_span-BeginsBy low (m ∷ n ∷ merged) s l h =
    (omega (arith, h.0), join_span-BeginsBy low (n ∷ merged) s l h.1)

merge_span-BeginsBy :
    (low : ℕ) (merged : List (ℕ × ℕ)) (s : ℕ × ℕ)
    → s.0 ≤ low
    → BeginsBy s.0 merged
    → BeginsBy low (merge_span merged s)
unfolding merge_span
merge_span-BeginsBy low merged s l h = elim (Bool-cases (leb s.1 s.0)) [
  | inl e ↦ rw (e) (BeginsBy-mono s.0 low merged l h)
  | inr e ↦ rw (e) (join_span-BeginsBy low merged s l h)
]

begins_behind : (s t : ℕ × ℕ) → span_lt t s ≡ false → s.0 ≤ t.0
unfolding span_lt
begins_behind s t e = ground arith

-- The loop of `_merge_spans` on spans in order, none of which begins in front of what is merged.
covers-foldl :
    (k : ℕ) (spans merged : List (ℕ × ℕ))
    → IsSorted span_lt spans
    → All (λ s. BeginsBy s.0 merged) spans
    → covers k (foldl merge_span merged spans) ≡ covers k merged || covers k spans
unfolding covers
covers-foldl k [] merged o h = ground arith
covers-foldl k (s ∷ spans) merged o h =
    let behind =
      All-map (λ t. span_lt t s ≡ false) (λ t. BeginsBy t.0 (merge_span merged s))
        (λ t e. merge_span-BeginsBy t.0 merged s (begins_behind s t e) h.0) spans o.0 in
    rw (covers-foldl k spans (merge_span merged s) o.1 behind, covers-merge_span k merged s h.0)
      (ground arith)

span_lt_asym : (s t : ℕ × ℕ) → span_lt s t ≡ true → span_lt t s ≡ false
unfolding span_lt
span_lt_asym s t h = ground arith

span_lt_trans : (s t u : ℕ × ℕ) → span_lt t s ≡ false → span_lt u t ≡ false → span_lt u s ≡ false
unfolding span_lt
span_lt_trans s t u h k = ground arith

nothing-BeginsBy : (spans : List (ℕ × ℕ)) → All (λ s. BeginsBy s.0 []) spans
nothing-BeginsBy [] = tt
nothing-BeginsBy (s ∷ spans) = (tt, nothing-BeginsBy spans)

join_span-Apart :
    (merged : List (ℕ × ℕ)) (s : ℕ × ℕ) → s.0 < s.1 → Apart merged → Apart (join_span merged s)
unfolding join_span
join_span-Apart [] s l h = l
join_span-Apart (m ∷ []) s l h = elim (Bool-cases (leb s.0 m.1)) [
  | inl e ↦ rw (e, Apart) (omega (arith, h))
  | inr e ↦ rw (e, Apart) (h, (ground arith, l))
]
join_span-Apart (m ∷ n ∷ []) s l h = elim (Bool-cases (leb s.0 n.1)) [
  | inl e ↦ rw (e, Apart) (h.0, (h.1.0, omega (arith, h.1.1)))
  | inr e ↦ rw (e, Apart) (h.0, (h.1.0, (h.1.1, (ground arith, l))))
]
join_span-Apart (m ∷ n ∷ o ∷ merged) s l h =
    (h.0, (h.1.0, join_span-Apart (n ∷ o ∷ merged) s l h.1.1))

merge_span-Apart : (merged : List (ℕ × ℕ)) (s : ℕ × ℕ) → Apart merged → Apart (merge_span merged s)
unfolding merge_span
merge_span-Apart merged s h = elim (Bool-cases (leb s.1 s.0)) [
  | inl e ↦ rw e h
  | inr e ↦ rw e (join_span-Apart merged s (ground arith) h)
]

-- `_merge_spans` returns spans that cover the same offsets as the spans it is given, in whatever
-- order these come and however they overlap: and none of its spans is empty, and each ends in
-- front of the next one with a gap between them.
pub merge_spans-covers :
    (spans : List (ℕ × ℕ))
    → ((k : ℕ) → covers k (merge_spans spans) ≡ covers k spans) × Apart (merge_spans spans)
unfolding merge_spans covers
merge_spans-covers spans =
    (same, foldl_inv Apart merge_span merge_span-Apart [] (sorted span_lt spans) tt)
  where
    same : (k : ℕ) → covers k (foldl merge_span [] (sorted span_lt spans)) ≡ covers k spans
    same k =
        covers-foldl k (sorted span_lt spans) []
          (sorted-IsSorted span_lt span_lt_asym span_lt_trans spans)
          (nothing-BeginsBy (sorted span_lt spans))
        ∙ any-sorted span_lt (λ s. leb s.0 k && ltb k s.1) spans

covers-dead_bodies : (k : ℕ) (arms : List Arm) → covers k (dead_bodies arms) ≡ in_dead arms k
unfolding covers dead_bodies in_dead
covers-dead_bodies k [] = refl
covers-dead_bodies k (a ∷ arms) = ground (arith, covers-dead_bodies k arms)

-- An offset is in one of the dead spans that the parser records if and only if `_in_dead` holds
-- of it: whether a symbol and a span of its file are dead is the same question.
pub covers-merge_spans :
    (arms : List Arm) (k : ℕ) → covers k (merge_spans (dead_bodies arms)) ≡ in_dead arms k
covers-merge_spans arms k = (merge_spans-covers (dead_bodies arms)).0 k ∙ covers-dead_bodies k arms
