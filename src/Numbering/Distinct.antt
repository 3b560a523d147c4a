-- ===== src/Numbering/Distinct.antt =====
-- `number` gives every listed entry a number, and no two the same.
use code_analyzer.Prelude.{
  ℕ, ◌+◌, ◌<◌, ◌≡◌, true, sym, subst, ap, ◌∙◌, Option, none, some, List, [], ◌∷◌, foldl, ◌==◌,
  length, any, All, All-map, Pairs, arith,
}
use code_analyzer.Prelude.Text.{codes}
use code_analyzer.Prelude.Sort.{any-sorted}
use code_analyzer.Entries.{Entry}
use code_analyzer.Numbering.{
  Old, Label, Fresh, bind_new, highest_of, matched, fresh, free_where, entry_lt, listed_of, number,
  old_of,
}
use code_analyzer.Numbering.Number.{pos, num, pv_code}
use code_analyzer.Numbering.Codes.{num-pv_code}
use code_analyzer.Numbering.Labels.{Differ, Taken, AtMost, All-set_at, Pairs-set_at, length-set_at}
use code_analyzer.Numbering.Matched.{matched-IsOpen}
use code_analyzer.Numbering.Visits.{IsSome, Visits, bind_new-Visits, none_free, free_where-Visits}
use code_analyzer.Numbering.Rows.{DifferIfListed, labelled-Pairs}
use code_analyzer.Numbering.Places.{
  SmallLabel, AtMost-mono, matched-HasPlaces, highest_of-Small, Taken-SmallLabel,
}

-- What the loop of the fourth step keeps.
record IsFresh (digit : ℕ → Option ℕ) (n : ℕ) (st : Fresh) : Type 0 where
  differ : Pairs Differ st.0
  small : All (λ l. SmallLabel digit st.1 l) st.0
  places : length st.0 ≡ n

module _ (digit : ℕ → Option ℕ) (ascii : (d : ℕ) → d < 10 → digit (48 + d) ≡ some d) where
  above-Differ :
      (highest : ℕ) (l : Option Label)
      → SmallLabel digit highest l
      → Differ (some (pv_code (highest + 1), codes "new")) l
  above-Differ highest none h = tt
  above-Differ highest (some l) h = λ e.
      let read : pos (highest + 1) ≡ num digit l.0 =
        sym (num-pv_code digit ascii (highest + 1)) ∙ ap (num digit) e in
      let low : AtMost highest (pos (highest + 1)) = subst (AtMost highest) (sym read) h in
      absurd (omega (arith, low))

  bind_new-IsFresh :
      (n : ℕ) (st : Fresh) (row : ℕ × Entry)
      → IsFresh digit n st
      → IsFresh digit n (bind_new st row)
  unfolding bind_new
  bind_new-IsFresh n (labels, highest) (i, e) h =
      let label : Label = (pv_code (highest + 1), codes "new") in
      record {
        differ =
            Pairs-set_at i label labels
              (All-map (SmallLabel digit highest) (Differ (some label)) (above-Differ highest)
                labels h.small)
              h.differ;
        small =
            All-set_at (SmallLabel digit (highest + 1)) i label labels
              (subst (AtMost (highest + 1)) (sym (num-pv_code digit ascii (highest + 1)))
                (omega arith))
              (All-map (SmallLabel digit highest) (SmallLabel digit (highest + 1)) (raised highest)
                labels h.small);
        places = length-set_at i label labels ∙ h.places;
      }
    where
      raised :
          (highest : ℕ) (l : Option Label)
          → SmallLabel digit highest l
          → SmallLabel digit (highest + 1) l
      raised highest none h = tt
      raised highest (some l) h = AtMost-mono highest (highest + 1) (num digit l.0) (omega arith) h

  fresh_rows :
      (n : ℕ) (rows : List (ℕ × Entry)) (st : Fresh)
      → IsFresh digit n st
      → Visits st.0 rows
      → IsFresh digit n (foldl bind_new st rows) × All IsSome (foldl bind_new st rows).0
  fresh_rows n [] st h v = (h, none_free st.0 v)
  fresh_rows n (row ∷ rows) st h v =
      fresh_rows n rows (bind_new st row) (bind_new-IsFresh n st row h)
        (bind_new-Visits rows row st.0 st.1 v)

  fresh-IsFresh :
      (listed : List Entry) (old : List Old)
      → let st = fresh digit listed old (matched digit listed old).labels in
        IsFresh digit (length listed) st × All IsSome st.0
  unfolding fresh
  fresh-IsFresh listed old =
      let top = highest_of digit old in
      let st = matched digit listed old in
      let kept = matched-IsOpen digit top listed old (highest_of-Small digit old) in
      let places = matched-HasPlaces digit listed old in
      fresh_rows (length listed) _ (st.labels, top)
        (record {
          differ = kept.differ;
          small =
              All-map (Taken st.taken_old) (SmallLabel digit top)
                (Taken-SmallLabel digit top st.taken_old kept.small) st.labels kept.taken;
          places = places;
        })
        (λ j f.
          any-sorted (λ p q. entry_lt p.1 q.1) (λ r. r.0 == j)
            (free_where (λ _. true) 0 listed st.labels)
          ∙ subst (λ n. any (λ r. r.0 == n) (free_where (λ _. true) 0 listed st.labels) ≡ true)
              (omega arith) (free_where-Visits 0 j listed st.labels places f))

  -- No two listed entries of the vulnerability list get the same number, old or new, whatever
  -- the records of the earlier triage are: also where their numbers repeat or are no numbers.
  pub number-DifferIfListed :
      (entries : List Entry) (previous : List Old)
      → Pairs DifferIfListed (number digit entries previous).0
  unfolding number
  number-DifferIfListed entries previous =
      let listed = listed_of entries in
      let (h, some_each) = fresh-IsFresh listed (old_of digit previous) in
      labelled-Pairs entries _ h.differ some_each h.places
