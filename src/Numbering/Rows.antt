-- ===== src/Numbering/Rows.antt =====
-- Places with different numbers make rows with different numbers.
use code_analyzer.Prelude.{
  ◌≡◌, ◌≢◌, true, false, inl, inr, Option, none, some, List, [], ◌∷◌, length, All, All-map, Pairs,
  Bool-cases, arith,
}
use code_analyzer.Entries.{Entry}
use code_analyzer.Numbering.{Label, is_listed, listed_of, labelled}
use code_analyzer.Numbering.Labels.{Differ}
use code_analyzer.Numbering.Visits.{IsSome}

-- The two rows are of listed entries, and have different numbers.
abbrev pub DifferIfListed : Entry × Label → Entry × Label → Type 0
DifferIfListed x y = is_listed x.0 ≡ true → is_listed y.0 ≡ true → (x.1.0 ≢ y.1.0)

unlisted :
    (e : Entry)
    → is_listed e ≡ false
    → (label : Label) (rows : List (Entry × Label)) → All (DifferIfListed (e, label)) rows
unlisted e h label [] = tt
unlisted e h label (row ∷ rows) =
    (λ t _. absurd (let k : is_listed e ≡ true = t in cc), unlisted e h label rows)

labelled-All :
    (label : Label) (entries : List Entry) (labels : List (Option Label))
    → All IsSome labels
    → length labels ≡ length (listed_of entries)
    → All (Differ (some label)) labels
    → All (λ y. is_listed y.0 ≡ true → label.0 ≢ y.1.0) (labelled entries labels)
unfolding labelled listed_of
labelled-All label [] labels a n d = tt
labelled-All label (e ∷ entries) [] a n d = elim (Bool-cases (is_listed e)) [
  | inl t ↦ absurd (ground (arith, n, t))
  | inr t ↦ (
    λ l. absurd (let k : is_listed e ≡ true = l in cc),
    labelled-All label entries [] a (ground (arith, n, t)) d,
  )
]
labelled-All label (e ∷ entries) (none ∷ labels) a n d = elim a.0 [ ]
labelled-All label (e ∷ entries) (some l ∷ labels) a n d = elim (Bool-cases (is_listed e)) [
  | inl t ↦
      rw (t, labelled) (λ _. d.0, labelled-All label entries labels a.1 (ground (arith, n, t)) d.1)
  | inr t ↦
      rw (t, labelled)
        (
          λ k. absurd (let l : is_listed e ≡ true = k in cc),
          labelled-All label entries (some l ∷ labels) a (ground (arith, n, t)) d,
        )
]

pub labelled-Pairs :
    (entries : List Entry) (labels : List (Option Label))
    → Pairs Differ labels
    → All IsSome labels
    → length labels ≡ length (listed_of entries)
    → Pairs DifferIfListed (labelled entries labels)
unfolding labelled listed_of
labelled-Pairs [] labels d a n = tt
labelled-Pairs (e ∷ entries) [] d a n = elim (Bool-cases (is_listed e)) [
  | inl t ↦ absurd (ground (arith, n, t))
  | inr t ↦ (unlisted e t ([], []) _, labelled-Pairs entries [] d a (ground (arith, n, t)))
]
labelled-Pairs (e ∷ entries) (none ∷ labels) d a n = elim a.0 [ ]
labelled-Pairs (e ∷ entries) (some l ∷ labels) d a n = elim (Bool-cases (is_listed e)) [
  | inl t ↦
      let size : length labels ≡ length (listed_of entries) = ground (arith, n, t) in
      rw (t, labelled)
        (
          All-map (λ y. is_listed y.0 ≡ true → l.0 ≢ y.1.0) (DifferIfListed (e, l)) (λ y h _. h) _
              (labelled-All l entries labels a.1 size d.0),
          labelled-Pairs entries labels d.1 a.1 size,
        )
  | inr t ↦
      rw (t, labelled)
        (
          unlisted e t ([], []) _,
          labelled-Pairs entries (some l ∷ labels) d a (ground (arith, n, t)),
        )
]
