-- ===== src/Numbering/Places.antt =====
-- What the fourth step of `number` starts from: as many places as entries, and small numbers.
use code_analyzer.Prelude.{
  ℕ, ◌≤◌, ◌≡◌, ◌||◌, true, false, refl, sym, subst, ◌∙◌, inl, inr, Option, none, some, List, [],
  ◌∷◌, max, length, All, All-map, foldl_inv, Bool-cases, arith,
}
use code_analyzer.Prelude.Text.{Text, codes, text_eq, text_eq→eq, is_empty}
use code_analyzer.Prelude.Sort.{sorted}
use code_analyzer.Entries.{Entry}
use code_analyzer.Numbering.{
  Old, Label, Numbered, Pair, bind, bind_shared, bind_first, has_text, bind_anchor, bind_moved,
  pairs_of, highest_of, matched, unlabelled, pair_lt,
}
use code_analyzer.Numbering.Number.{ℤ, pos, negsuc, num}
use code_analyzer.Numbering.Labels.{Taken, AtMost, length-set_at}

pub AtMost-mono : (low high : ℕ) (z : ℤ) → low ≤ high → AtMost low z → AtMost high z
AtMost-mono low high (pos n) h l = omega arith
AtMost-mono low high (negsuc n) h l = tt

length-unlabelled : (listed : List Entry) → length (unlabelled listed) ≡ length listed
unfolding unlabelled
length-unlabelled [] = refl
length-unlabelled (e ∷ listed) = omega (arith, length-unlabelled listed)

-- There is a place for each entry of `listed`.
abbrev pub HasPlaces : ℕ → Numbered → Type 0
HasPlaces n st = length st.labels ≡ n

bind_shared-HasPlaces :
    (n : ℕ) (st : Numbered) (p : Pair) → HasPlaces n st → HasPlaces n (bind_shared st p)
unfolding bind_shared bind
bind_shared-HasPlaces n st p h =
    ground (arith, h, length-set_at p.index (p.old.pv_id, codes "fingerprint") st.labels)

bind_first-HasPlaces :
    (n : ℕ) (rows : List (ℕ × Entry)) (old : Old) (how : Text) (st : Numbered)
    → HasPlaces n st
    → HasPlaces n (bind_first rows old how st)
unfolding bind_first bind
bind_first-HasPlaces n [] old how st h = h
bind_first-HasPlaces n (row ∷ rows) old how st h =
    length-set_at row.0 (old.pv_id, how) st.labels ∙ h

bind_anchor-HasPlaces :
    (n : ℕ) (listed : List Entry) (st : Numbered) (old : Old)
    → HasPlaces n st
    → HasPlaces n (bind_anchor listed st old)
unfolding bind_anchor
bind_anchor-HasPlaces n listed st old h = elim (Bool-cases (has_text old.pv_id st.taken_old)) [
  | inl e ↦ rw e h
  | inr e ↦ rw e (bind_first-HasPlaces n _ old (codes "anchor") st h)
]

bind_moved-HasPlaces :
    (n : ℕ) (listed : List Entry) (st : Numbered) (old : Old)
    → HasPlaces n st
    → HasPlaces n (bind_moved listed st old)
unfolding bind_moved
bind_moved-HasPlaces n listed st old h =
    elim (Bool-cases (has_text old.pv_id st.taken_old || is_empty old.decisive_line_sha)) [
      | inl e ↦ rw e h
      | inr e ↦ rw e (bind_first-HasPlaces n _ old (codes "moved") st h)
    ]

abbrev pub SmallLabel : (ℕ → Option ℕ) → ℕ → Option Label → Type 0
SmallLabel digit top none = Unit
SmallLabel digit top (some l) = AtMost top (num digit l.0)

has_text-nil : (t : Text) → has_text t [] ≡ false
unfolding has_text
has_text-nil t = refl

has_text-cons :
    (t u : Text) (ts : List Text)
    → text_eq t u ≡ false
    → has_text t (u ∷ ts) ≡ true
    → has_text t ts ≡ true
unfolding has_text
has_text-cons t u ts e h = ground (arith, e, h)

module _ (digit : ℕ → Option ℕ) where
  pub matched-HasPlaces :
      (listed : List Entry) (old : List Old) → HasPlaces (length listed) (matched digit listed old)
  unfolding matched
  matched-HasPlaces listed old =
      let n = length listed in
      foldl_inv (HasPlaces n) (bind_moved listed) (bind_moved-HasPlaces n listed) _ old (
        foldl_inv (HasPlaces n) (bind_anchor listed) (bind_anchor-HasPlaces n listed) _ old (
          foldl_inv (HasPlaces n) bind_shared (bind_shared-HasPlaces n) _
            (sorted pair_lt (pairs_of digit listed old)) (length-unlabelled listed)))

  pub highest_of-Small :
      (old : List Old) → All (λ o. AtMost (highest_of digit old) (num digit o.pv_id)) old
  unfolding highest_of
  highest_of-Small [] = tt
  highest_of-Small (o ∷ old) =
      let rest = highest_of digit old in
      (
        here rest (num digit o.pv_id),
        All-map (λ p. AtMost rest (num digit p.pv_id)) _
            (λ p h. AtMost-mono rest _ (num digit p.pv_id) (omega arith) h) old
            (highest_of-Small old),
      )
    where
      here : (rest : ℕ) (z : ℤ) → AtMost (max (elim z [ pos n ↦ n | negsuc _ ↦ 0 ]) rest) z
      here rest (pos n) = omega arith
      here rest (negsuc n) = tt

  pub Taken-SmallLabel :
      (top : ℕ) (taken : List Text)
      → All (λ t. AtMost top (num digit t)) taken
      → (l : Option Label) → Taken taken l
      → SmallLabel digit top l
  Taken-SmallLabel top taken h none t = tt
  Taken-SmallLabel top taken h (some l) t = among taken h t
    where
      among :
          (taken : List Text)
          → All (λ t. AtMost top (num digit t)) taken
          → has_text l.0 taken ≡ true
          → AtMost top (num digit l.0)
      among [] h e = absurd (let none_in = has_text-nil l.0 in cc)
      among (t ∷ taken) h e = elim (Bool-cases (text_eq l.0 t)) [
        | inl e' ↦ subst (λ u. AtMost top (num digit u)) (sym (text_eq→eq l.0 t e')) h.0
        | inr e' ↦ among taken h.1 (has_text-cons l.0 t taken e' e)
      ]
