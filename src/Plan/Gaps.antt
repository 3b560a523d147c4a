-- ===== src/Plan/Gaps.antt =====
-- `coverage_gaps` is a sound check: where it reports nothing, each byte is in exactly one span.
use code_analyzer.Prelude.{
  ℕ, ◌+◌, ◌≤◌, ◌<◌, ◌≡◌, refl, sym, ◌&&◌, List, [], ◌∷◌, ◌++◌, foldl, ltb, leb, if◌then◌else◌,
  arith, inl, inr, Bool-cases, max, ◌∙◌,
}
use code_analyzer.Prelude.Sort.{sorted, insert_sorted}
use code_analyzer.Plan.{Scan, scan_span, scan_end, scan_spans, span_before}

-- In how many of the spans the byte `b` is.
pub claims : ℕ → List (ℕ × ℕ) → ℕ
claims b [] = 0
claims b ((start, end) ∷ spans) = (if leb start b && ltb b end then 1 else 0) + claims b spans

append-eq-nil {ℓ} : {A : Type ℓ} (xs ys : List A) → xs ++ ys ≡ [] → (xs ≡ []) × (ys ≡ [])
append-eq-nil [] ys h = (refl, h)
append-eq-nil (x ∷ xs) ys h = absurd (cc)

-- No problem was found up to this point.
pub record IsQuiet (s : Scan) : Type 0 where
  pub no_gaps : s.gaps ≡ []
  pub no_overlaps : s.overlaps ≡ []

IsQuiet-scan_span :
    (s : Scan) (start end : ℕ) → IsQuiet (scan_span s (start, end)) → IsQuiet s × (start ≡ s.cursor)
unfolding scan_span
IsQuiet-scan_span s start end h =
    let g = append-eq-nil _ _ h.no_gaps in
    let o = append-eq-nil _ _ h.no_overlaps in
    (record { no_gaps = g.0; no_overlaps = o.0 }, ground arith)

IsQuiet-foldl : (s : Scan) (spans : List (ℕ × ℕ)) → IsQuiet (foldl scan_span s spans) → IsQuiet s
IsQuiet-foldl s [] h = h
IsQuiet-foldl s ((start, end) ∷ spans) h =
    (IsQuiet-scan_span s start end (IsQuiet-foldl (scan_span s (start, end)) spans h)).0

cursor-le-foldl : (s : Scan) (spans : List (ℕ × ℕ)) → s.cursor ≤ (foldl scan_span s spans).cursor
unfolding scan_span
cursor-le-foldl s [] = omega arith
cursor-le-foldl s ((start, end) ∷ spans) =
    omega (arith, cursor-le-foldl (scan_span s (start, end)) spans)

-- A span from the cursor on moves the range that is claimed once.
join_claims :
    (b start c end last n : ℕ)
    → start ≡ c
    → max c end ≤ last
    → n ≡ (if leb (max c end) b && ltb b last then 1 else 0)
    → (if leb start b && ltb b end then 1 else 0) + n ≡ (if leb c b && ltb b last then 1 else 0)
join_claims b start c end last n s h e = ground arith

claims-quiet :
    (b : ℕ) (s : Scan) (spans : List (ℕ × ℕ))
    → IsQuiet (foldl scan_span s spans)
    → claims b spans ≡ (if leb s.cursor b && ltb b (foldl scan_span s spans).cursor then 1 else 0)
unfolding claims scan_span
claims-quiet b s [] h = ground arith
claims-quiet b s ((start, end) ∷ spans) h =
    let s' = scan_span s (start, end) in
    join_claims b start s.cursor end (foldl scan_span s' spans).cursor (claims b spans)
      (IsQuiet-scan_span s start end (IsQuiet-foldl s' spans h)).1 (cursor-le-foldl s' spans)
      (claims-quiet b s' spans h)

claims-insert_sorted :
    (b : ℕ) (x : ℕ × ℕ) (ys : List (ℕ × ℕ))
    → claims b (insert_sorted span_before x ys) ≡ claims b (x ∷ ys)
unfolding claims insert_sorted
claims-insert_sorted b x [] = refl
claims-insert_sorted b x (y ∷ ys) = elim (Bool-cases (span_before y x)) [
  | inl e ↦ rw e (omega (arith, claims-insert_sorted b x ys))
  | inr e ↦ rw e
]

claims-sorted : (b : ℕ) (xs : List (ℕ × ℕ)) → claims b (sorted span_before xs) ≡ claims b xs
unfolding sorted claims
claims-sorted b [] = refl
claims-sorted b (x ∷ xs) =
    claims-insert_sorted b x (sorted span_before xs) ∙ omega (arith, claims-sorted b xs)

-- When the check of a file's spans finds no gap and no overlap, each byte of the file is in
-- exactly one span.
pub claims-scan_spans :
    (size : ℕ) (spans : List (ℕ × ℕ)) (b : ℕ)
    → IsQuiet (scan_spans size spans)
    → b < size
    → claims b spans ≡ 1
unfolding scan_spans scan_end
claims-scan_spans size spans b h lt =
    let start : Scan = record { gaps = []; overlaps = []; cursor = 0 } in
    let s = foldl scan_span start (sorted span_before spans) in
    let g = append-eq-nil _ _ h.no_gaps in
    let o = append-eq-nil _ _ h.no_overlaps in
    let count =
      claims-quiet b start (sorted span_before spans)
        (record { no_gaps = g.0; no_overlaps = o.0 }) in
    sym (claims-sorted b spans) ∙ count ∙ ground arith
