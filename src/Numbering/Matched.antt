-- ===== src/Numbering/Matched.antt =====
-- The first three steps of `number` give no number twice.
use code_analyzer.Prelude.{
  ℕ, ◌≡◌, ◌||◌, ◌&&◌, false, not, refl, inl, inr, Option, none, some, List, [], ◌∷◌, map, All,
  All-append, All-map, Pairs, foldl_All, Bool-cases, arith,
}
use code_analyzer.Prelude.Text.{Text, codes, text_eq_refl, is_empty}
use code_analyzer.Prelude.Sort.{All-sorted}
use code_analyzer.Entries.{Entry}
use code_analyzer.Numbering.{
  Old, Numbered, Pair, has_text, bind, bind_shared, bind_first, bind_anchor, bind_moved, pairs_of,
  pair_lt, shared_of, matched, unlabelled, is_free,
}
use code_analyzer.Numbering.Number.{num}
use code_analyzer.Numbering.Labels.{
  Differ, Taken, AtMost, All-set_at, Pairs-set_at, Taken-Differ, Taken-more,
}

module _ (digit : ℕ → Option ℕ) (top : ℕ) where
  abbrev pub Small : Text → Type 0
  Small t = AtMost top (num digit t)

  -- What the first three steps keep: the numbers are different, they are in `taken_old`, and
  -- those in `taken_old` are at most the highest one.
  pub record IsOpen (st : Numbered) : Type 0 where
    pub differ : Pairs Differ st.labels
    pub taken : All (Taken st.taken_old) st.labels
    pub small : All Small st.taken_old

  bind-IsOpen :
      (index : ℕ) (old : Old) (how : Text) (st : Numbered)
      → has_text old.pv_id st.taken_old ≡ false
      → Small old.pv_id
      → IsOpen st
      → IsOpen (bind index old how st)
  unfolding bind has_text
  bind-IsOpen index old how st new small h = record {
    differ =
        Pairs-set_at index (old.pv_id, how) st.labels
          (All-map (Taken st.taken_old) (Differ (some (old.pv_id, how)))
            (Taken-Differ st.taken_old (old.pv_id, how) new) st.labels h.taken)
          h.differ;
    taken =
        All-set_at (Taken (old.pv_id ∷ st.taken_old)) index (old.pv_id, how) st.labels
          (rw (text_eq_refl old.pv_id) refl)
          (All-map (Taken st.taken_old) (Taken (old.pv_id ∷ st.taken_old))
            (Taken-more old.pv_id st.taken_old) st.labels h.taken);
    small = (small, h.small);
  }

  bind_first-IsOpen :
      (rows : List (ℕ × Entry)) (old : Old) (how : Text) (st : Numbered)
      → has_text old.pv_id st.taken_old ≡ false
      → Small old.pv_id
      → IsOpen st
      → IsOpen (bind_first rows old how st)
  unfolding bind_first
  bind_first-IsOpen [] old how st new small h = h
  bind_first-IsOpen (row ∷ rows) old how st new small h = bind-IsOpen row.0 old how st new small h

  bind_shared-IsOpen :
      (st : Numbered) (p : Pair) → Small p.old.pv_id → IsOpen st → IsOpen (bind_shared st p)
  unfolding bind_shared
  bind_shared-IsOpen st p small h =
      elim (Bool-cases (is_free p.index st.labels && not (has_text p.old.pv_id st.taken_old))) [
        | inl e ↦
            rw e (bind-IsOpen p.index p.old (codes "fingerprint") st (ground (arith, e)) small h)
        | inr e ↦ rw e h
      ]

  bind_anchor-IsOpen :
      (listed : List Entry) (st : Numbered) (old : Old)
      → Small old.pv_id
      → IsOpen st
      → IsOpen (bind_anchor listed st old)
  unfolding bind_anchor
  bind_anchor-IsOpen listed st old small h = elim (Bool-cases (has_text old.pv_id st.taken_old)) [
    | inl e ↦ rw e h
    | inr e ↦ rw e (bind_first-IsOpen _ old (codes "anchor") st e small h)
  ]

  bind_moved-IsOpen :
      (listed : List Entry) (st : Numbered) (old : Old)
      → Small old.pv_id
      → IsOpen st
      → IsOpen (bind_moved listed st old)
  unfolding bind_moved
  bind_moved-IsOpen listed st old small h =
      elim (Bool-cases (has_text old.pv_id st.taken_old || is_empty old.decisive_line_sha)) [
        | inl e ↦ rw e h
        | inr e ↦ rw e (bind_first-IsOpen _ old (codes "moved") st (ground (arith, e)) small h)
      ]

  pairs_of-Small :
      (listed : List Entry) (old : List Old)
      → All (λ o. Small o.pv_id) old
      → All (λ p. Small p.old.pv_id) (pairs_of digit listed old)
  unfolding pairs_of
  pairs_of-Small listed [] h = tt
  pairs_of-Small listed (o ∷ old) h =
      All-append (λ p. Small p.old.pv_id) _ _ (go (shared_of listed o.members []))
        (pairs_of-Small listed old h.1)
    where
      go :
          (shared : List (ℕ × ℕ))
          → All {A = Pair}
              (λ p. Small p.old.pv_id)
              (map
                (λ c. record { count = c.1; number = num digit o.pv_id; index = c.0; old = o })
                shared)
      go [] = tt
      go (c ∷ shared) = (h.0, go shared)

  unlabelled-Pairs : (listed : List Entry) → Pairs Differ (unlabelled listed)
  unfolding unlabelled
  unlabelled-Pairs [] = tt
  unlabelled-Pairs (e ∷ listed) = (go listed, unlabelled-Pairs listed)
    where
      go : (listed : List Entry) → All (Differ none) (unlabelled listed)
      go [] = tt
      go (e ∷ listed) = (tt, go listed)

  unlabelled-Taken : (listed : List Entry) → All (Taken []) (unlabelled listed)
  unfolding unlabelled
  unlabelled-Taken [] = tt
  unlabelled-Taken (e ∷ listed) = (tt, unlabelled-Taken listed)

  pub matched-IsOpen :
      (listed : List Entry) (old : List Old)
      → All (λ o. Small o.pv_id) old
      → IsOpen (matched digit listed old)
  unfolding matched
  matched-IsOpen listed old h =
      let start : IsOpen (record { labels = unlabelled listed; taken_old = [] }) = record {
        differ = unlabelled-Pairs listed;
        taken = unlabelled-Taken listed;
        small = tt;
      } in
      let shared =
        foldl_All IsOpen (λ p. Small p.old.pv_id) bind_shared bind_shared-IsOpen _ _
          (All-sorted pair_lt (λ p. Small p.old.pv_id) _ (pairs_of-Small listed old h)) start in
      foldl_All IsOpen (λ o. Small o.pv_id) (bind_moved listed) (bind_moved-IsOpen listed) _ old h
        (foldl_All IsOpen (λ o. Small o.pv_id) (bind_anchor listed) (bind_anchor-IsOpen listed) _
          old h shared)
