-- ===== src/Triage/Conserved.antt =====
-- `cluster` puts every finding row into one cluster.
use code_analyzer.Prelude.{
  ℕ, ◌+◌, ◌≡◌, ◌∙◌, Bool, refl, inl, inr, Option, List, [], ◌∷◌, ◌++◌, map, foldl, if◌then◌else◌,
  sum_by, sum_by-append, Bool-cases, arith,
}
use code_analyzer.Prelude.Text.{Text}
use code_analyzer.Prelude.Sort.{sorted, sum_by-sorted}
use code_analyzer.Triage.{
  Row, Key, Place, Group, Cluster, key_of, place_of, place_eq, place_lt, is_finding, add_row,
  add_finding, member_lt, is_far, limit_for, split_rows, chains_of, chains_of_all, anchor_of, close,
  close_all, chains, cluster,
}

-- How many of the keys pass a test.
pub count : (Key → Bool) → List Key → ℕ
count p keys = sum_by (λ k. if p k then 1 else 0) keys

-- The keys of the finding rows.
pub finding_keys : List Row → List Key
finding_keys [] = []
finding_keys (r ∷ rows) = if is_finding r then key_of r ∷ finding_keys rows else finding_keys rows

module _ (p : Key → Bool) where
  one : Row → ℕ
  one r = if p (key_of r) then 1 else 0

  in_rows : List Row → ℕ
  in_rows rows = sum_by one rows

  in_groups : List Group → ℕ
  in_groups groups = sum_by (λ g. in_rows g.1) groups

  in_chains : List (Place × List Row) → ℕ
  in_chains chains = sum_by (λ c. in_rows c.1) chains

  count-map : (rows : List Row) → count p (map key_of rows) ≡ in_rows rows
  unfolding count in_rows one
  count-map [] = refl
  count-map (r ∷ rows) = omega (arith, count-map rows)

  in_groups-add_row :
      (r : Row) (place : Place) (groups : List Group)
      → in_groups (add_row r place groups) ≡ one r + in_groups groups
  unfolding in_groups add_row in_rows
  in_groups-add_row r place [] = omega arith
  in_groups-add_row r place (g ∷ groups) = elim (Bool-cases (place_eq g.0 place)) [
    | inl e ↦ rw e (omega (arith, sum_by-append one g.1 (r ∷ [])))
    | inr e ↦ rw e (omega (arith, in_groups-add_row r place groups))
  ]

  in_groups-foldl :
      (rows : List Row) (groups : List Group)
      → in_groups (foldl add_finding groups rows) ≡ in_groups groups + count p (finding_keys rows)
  unfolding add_finding finding_keys count one in_groups
  in_groups-foldl [] groups = omega arith
  in_groups-foldl (r ∷ rows) groups = elim (Bool-cases (is_finding r)) [
    | inl e ↦
        rw (e, in_groups-foldl rows (add_row r (place_of r) groups), in_groups-add_row, one)
          (omega arith)
    | inr e ↦ rw e (in_groups-foldl rows groups)
  ]

-- The keys of the members of all clusters.
pub member_keys : List Cluster → List Key
member_keys [] = []
member_keys (c ∷ clusters) = c.members ++ member_keys clusters

module _ (p : Key → Bool) (digit : ℕ → Option ℕ) where
  in_split_rows :
      (limit : ℕ) (rows current : List Row)
      → sum_by (in_rows p) (split_rows digit limit rows current)
        ≡ in_rows p current + in_rows p rows
  unfolding split_rows in_rows
  in_split_rows limit [] [] = refl
  in_split_rows limit [] (c ∷ current) = omega arith
  in_split_rows limit (r ∷ rows) current = elim (Bool-cases (is_far digit limit current r)) [
    | inl e ↦ rw e (omega (arith, in_split_rows limit rows (r ∷ [])))
    | inr e ↦ rw e (
        omega (
          arith,
          in_split_rows limit rows (current ++ r ∷ []),
          sum_by-append (one p) current (r ∷ []),
        ))
  ]

  in_chains-map :
      (place : Place) (lists : List (List Row))
      → in_chains p (map (λ chain. (place, chain)) lists) ≡ sum_by (in_rows p) lists
  unfolding in_chains
  in_chains-map place [] = refl
  in_chains-map place (rows ∷ lists) = omega (arith, in_chains-map place lists)

  in_chains_of :
      (gap near : ℕ) (g : Group) → in_chains p (chains_of digit gap near g) ≡ in_rows p g.1
  unfolding chains_of in_rows
  in_chains_of gap near (place, rows) =
      let limit = limit_for gap near place in
      let members = sorted (member_lt digit) rows in
      omega (
        arith,
        in_chains-map place (split_rows digit limit members []),
        in_split_rows limit members [],
        sum_by-sorted (member_lt digit) (one p) rows,
      )

  in_chains_of_all :
      (gap near : ℕ) (groups : List Group)
      → in_chains p (chains_of_all digit gap near groups) ≡ in_groups p groups
  unfolding chains_of_all in_groups in_chains
  in_chains_of_all gap near [] = refl
  in_chains_of_all gap near (g ∷ groups) =
      rw
        (sum_by-append (λ c. in_rows p c.1) (chains_of digit gap near g)
          (chains_of_all digit gap near groups))
        (omega (arith, in_chains_of gap near g, in_chains_of_all gap near groups))

  count-nil : count p [] ≡ 0
  unfolding count
  count-nil = refl

  in_rows-nil : in_rows p [] ≡ 0
  unfolding in_rows
  in_rows-nil = refl

  count-append : (xs ys : List Key) → count p (xs ++ ys) ≡ count p xs + count p ys
  unfolding count
  count-append xs ys = sum_by-append (λ k. if p k then 1 else 0) xs ys

  module _ (sha256 : Text → Text) where
    count-close_all :
        (chains : List (Place × List Row)) (seen : List Text)
        → count p (member_keys (close_all digit sha256 chains seen)) ≡ in_chains p chains
    unfolding member_keys close_all in_chains close
    count-close_all [] seen = count-nil
    count-close_all ((place, []) ∷ chains) seen =
        omega (arith, in_rows-nil, count-close_all chains seen)
    count-close_all ((place, first ∷ rows) ∷ chains) seen = rw count-append (
        omega (
          arith,
          count-map p (first ∷ rows),
          count-close_all chains (anchor_of digit place first ∷ seen),
        ))

    -- The clusters have each finding row as a member exactly once, and no other row: whatever test
    -- of keys is taken, as many members of clusters pass it as finding rows do.
    pub count-cluster :
        (gap near : ℕ) (rows : List Row)
        → count p (member_keys (cluster digit sha256 gap near rows)) ≡ count p (finding_keys rows)
    unfolding cluster chains in_groups
    count-cluster gap near rows =
        let groups = sorted (λ g h. place_lt g.0 h.0) (foldl add_finding [] rows) in
        count-close_all (chains_of_all digit gap near groups) []
        ∙ in_chains_of_all gap near groups
        ∙ sum_by-sorted (λ g h. place_lt g.0 h.0) (λ g. in_rows p g.1) (foldl add_finding [] rows)
        ∙ (let e = in_groups-foldl p rows [] in omega (arith, e))
