-- ===== src/Numbering/Visits.antt =====
-- The fourth step of `number` visits every place that is still free.
use code_analyzer.Prelude.{
  ℕ, zero, suc, ◌+◌, ◌≡◌, true, false, refl, subst, Option, none, some, List, [], ◌∷◌, ◌==◌, length,
  any, All, arith,
}
use code_analyzer.Prelude.Text.{codes}
use code_analyzer.Entries.{Entry}
use code_analyzer.Numbering.{Label, set_at, bind_new, free_where, is_free}
use code_analyzer.Numbering.Number.{pv_code}

abbrev pub IsSome : Option Label → Type 0
IsSome none = ⊥
IsSome (some l) = Unit

-- A place that is free when the fourth step begins is one that its loop still visits.
abbrev pub Visits : List (Option Label) → List (ℕ × Entry) → Type 0
Visits labels rows = (j : ℕ) → is_free j labels ≡ true → any (λ r. r.0 == j) rows ≡ true

is_free-set_at :
    (i j : ℕ) (label : Label) (labels : List (Option Label))
    → is_free j (set_at i label labels) ≡ true
    → (is_free j labels ≡ true) × ((i == j) ≡ false)
unfolding is_free set_at
is_free-set_at i j label [] h = absurd (cc)
is_free-set_at zero zero label (l ∷ labels) h = absurd (cc)
is_free-set_at zero (suc j) label (none ∷ labels) h = (h, ground arith)
is_free-set_at zero (suc j) label (some l ∷ labels) h = (h, ground arith)
is_free-set_at (suc i) zero label (none ∷ labels) h = (refl, ground arith)
is_free-set_at (suc i) zero label (some l ∷ labels) h = absurd (cc)
is_free-set_at (suc i) (suc j) label (none ∷ labels) h =
    let (f, n) = is_free-set_at i j label labels h in (f, ground (arith, n))
is_free-set_at (suc i) (suc j) label (some l ∷ labels) h =
    let (f, n) = is_free-set_at i j label labels h in (f, ground (arith, n))

pub bind_new-Visits :
    (rows : List (ℕ × Entry)) (row : ℕ × Entry) (labels : List (Option Label)) (highest : ℕ)
    → Visits labels (row ∷ rows)
    → Visits (bind_new (labels, highest) row).0 rows
unfolding bind_new
bind_new-Visits rows (i, e) labels highest h j f =
    let (free, other) = is_free-set_at i j (pv_code (highest + 1), codes "new") labels f in
    let seen = h j free in ground (arith, seen, other)

pub none_free : (labels : List (Option Label)) → Visits labels [] → All IsSome labels
unfolding is_free
none_free [] h = tt
none_free (none ∷ labels) h = absurd (let e = h 0 refl in cc)
none_free (some l ∷ labels) h = (tt, none_free labels (λ j. h (suc j)))

pub free_where-Visits :
    (index j : ℕ) (listed : List Entry) (labels : List (Option Label))
    → length labels ≡ length listed
    → is_free j labels ≡ true
    → any (λ r. r.0 == index + j) (free_where (λ _. true) index listed labels) ≡ true
unfolding is_free free_where
free_where-Visits index j listed [] s h = absurd (cc)
free_where-Visits index j [] (l ∷ labels) s h = absurd (omega arith)
free_where-Visits index zero (e ∷ listed) (none ∷ labels) s h = ground arith
free_where-Visits index (suc j) (e ∷ listed) (none ∷ labels) s h =
    let later = free_where-Visits (index + 1) j listed labels (omega arith) h in
    let shift : index + 1 + j ≡ index + suc j = omega arith in
    let later' =
      subst (λ n. any (λ r. r.0 == n) (free_where (λ _. true) (index + 1) listed labels) ≡ true)
        shift later in
    ground (arith, later')
free_where-Visits index zero (e ∷ listed) (some l ∷ labels) s h = absurd (cc)
free_where-Visits index (suc j) (e ∷ listed) (some l ∷ labels) s h =
    let later = free_where-Visits (index + 1) j listed labels (omega arith) h in
    let shift : index + 1 + j ≡ index + suc j = omega arith in
    subst (λ n. any (λ r. r.0 == n) (free_where (λ _. true) (index + 1) listed labels) ≡ true) shift
      later
