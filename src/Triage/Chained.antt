-- ===== src/Triage/Chained.antt =====
-- The members of a cluster share a place and stand close together.
use code_analyzer.Prelude.{
  ℕ, ◌+◌, ◌≤◌, ◌≡◌, ap, ◌∙◌, Bool, not, ◌&&◌, ◌||◌, any, if◌then◌else◌, All-map, true, false, refl,
  sym, subst, inl, inr, Option, List, [], ◌∷◌, ◌++◌, map, foldl, foldl_inv, All, All-append, Pairs,
  Bool-cases, arith,
}
use code_analyzer.Prelude.Text.{Text, text_eq, text_eq→eq, is_empty, codes}
use code_analyzer.Prelude.Sort.{sorted, All-sorted, sorted-Pairs}
use code_analyzer.Triage.{
  Row, Place, Group, place_of, place_eq, place_lt, is_finding, add_row, add_finding, line_number,
  member_lt, is_far, last_row, limit_for, split_rows, chains_of, chains_of_all, chains,
  clustering_rule, correlating_families,
}

abbrev InPlace : Group → Type 0
InPlace g = All (λ r. place_of r ≡ g.0) g.1

place_eq→eq : (a b : Place) → place_eq a b ≡ true → a ≡ b
unfolding place_eq
place_eq→eq (a, b, c, d) (e, f, g, h) t =
    let p = text_eq→eq a e (ground (arith, t)) in
    let q = text_eq→eq b f (ground (arith, t)) in
    let r = text_eq→eq c g (ground (arith, t)) in
    let s = text_eq→eq d h (ground (arith, t)) in λ i. (p i, q i, r i, s i)

add_row-InPlace :
    (r : Row) (groups : List Group)
    → All InPlace groups
    → All InPlace (add_row r (place_of r) groups)
unfolding add_row
add_row-InPlace r [] h = ((refl, tt), tt)
add_row-InPlace r (g ∷ groups) h = elim (Bool-cases (place_eq g.0 (place_of r))) [
  | inl e ↦ rw e (
    All-append (λ s. place_of s ≡ g.0) g.1 (r ∷ []) h.0 (sym (place_eq→eq g.0 (place_of r) e), tt),
    h.1,
  )
  | inr e ↦ rw e (h.0, add_row-InPlace r groups h.1)
]

add_finding-InPlace :
    (groups : List Group) (r : Row) → All InPlace groups → All InPlace (add_finding groups r)
unfolding add_finding
add_finding-InPlace groups r h = elim (Bool-cases (is_finding r)) [
  | inl e ↦ rw e (add_row-InPlace r groups h)
  | inr e ↦ rw e h
]

-- The row can be of one defect with rows of other tools.
abbrev pub correlates : Row → Bool
correlates r =
    any (text_eq r.family) correlating_families
    && (not (is_empty r.cwe) || text_eq r.engine (codes "llm"))

-- The row belongs to a place: its path, its function, its family and a rule.
pub record IsAt (r : Row) (p : Place) : Type 0 where
  pub path : r.path ≡ p.0
  pub function : r.function ≡ p.1
  pub family : r.family ≡ p.2
  pub correlated : correlates r ≡ true → p.3 ≡ []
  pub alone : correlates r ≡ false → p.3 ≡ r.rule_id

place_of-IsAt : (r : Row) (p : Place) → place_of r ≡ p → IsAt r p
unfolding place_of clustering_rule
place_of-IsAt r p e = record {
  path = ap (λ q. q.0) e;
  function = ap (λ q. q.1) e;
  family = ap (λ q. q.2) e;
  correlated = λ h. sym (ap (λ q. q.3) e) ∙ rule_true (correlates r) r.rule_id h;
  alone = λ h. sym (ap (λ q. q.3) e) ∙ rule_false (correlates r) r.rule_id h;
}
  where
    rule_true : (b : Bool) (rule : Text) → b ≡ true → (if b then [] else rule) ≡ []
    rule_true true rule h = refl
    rule_true false rule h = absurd (cc)

    rule_false : (b : Bool) (rule : Text) → b ≡ false → (if b then [] else rule) ≡ rule
    rule_false true rule h = absurd (cc)
    rule_false false rule h = refl

module _ (digit : ℕ → Option ℕ) where
  -- The lines ascend, by at most `limit` from a row to the next.
  abbrev pub IsChain : ℕ → List Row → Type 0
  IsChain limit [] = Unit
  IsChain limit (r ∷ []) = Unit
  IsChain limit (r ∷ s ∷ rows) =
      (line_number digit r ≤ line_number digit s)
      × ((line_number digit s ≤ line_number digit r + limit) × IsChain limit (s ∷ rows))

  IsChain-snoc :
      (limit : ℕ) (c : Row) (current : List Row) (r : Row)
      → IsChain limit (c ∷ current)
      → line_number digit (last_row c current) ≤ line_number digit r
      → line_number digit r ≤ line_number digit (last_row c current) + limit
      → IsChain limit (c ∷ (current ++ r ∷ []))
  unfolding last_row
  IsChain-snoc limit c [] r h l u = (l, (u, tt))
  IsChain-snoc limit c (d ∷ current) r h l u =
      (h.0, (h.1.0, IsChain-snoc limit d current r h.1.1 l u))

  last_row-snoc : (c : Row) (current : List Row) (r : Row) → last_row c (current ++ r ∷ []) ≡ r
  unfolding last_row
  last_row-snoc c [] r = refl
  last_row-snoc c (d ∷ current) r = last_row-snoc d current r

  -- The row is not in front of the last one of the list.
  Follows : List Row → Row → Type 0
  Follows [] r = Unit
  Follows (c ∷ current) r = line_number digit (last_row c current) ≤ line_number digit r

  Follows-snoc :
      (current : List Row) (r : Row) (rows : List Row)
      → All (λ s. line_number digit r ≤ line_number digit s) rows
      → All (Follows (current ++ r ∷ [])) rows
  unfolding Follows last_row
  Follows-snoc [] r rows h = h
  Follows-snoc (c ∷ current) r rows h =
      subst (λ t. All (λ s. line_number digit t ≤ line_number digit s) rows)
        (sym (last_row-snoc c current r)) h

  near-IsChain :
      (limit : ℕ) (current : List Row) (r : Row)
      → IsChain limit current
      → Follows current r
      → is_far digit limit current r ≡ false
      → IsChain limit (current ++ r ∷ [])
  unfolding Follows is_far
  near-IsChain limit [] r h f e = tt
  near-IsChain limit (c ∷ current) r h f e = IsChain-snoc limit c current r h f (ground (arith, e))

  split_rows-IsChain :
      (limit : ℕ) (rows current : List Row)
      → Pairs (λ r s. line_number digit r ≤ line_number digit s) rows
      → All (Follows current) rows
      → IsChain limit current
      → All (IsChain limit) (split_rows digit limit rows current)
  unfolding split_rows
  split_rows-IsChain limit [] [] p f h = tt
  split_rows-IsChain limit [] (c ∷ current) p f h = (h, tt)
  split_rows-IsChain limit (r ∷ rows) current p f h =
      elim (Bool-cases (is_far digit limit current r)) [
        | inl e ↦
            rw e (h, split_rows-IsChain limit rows (r ∷ []) p.1 (Follows-snoc [] r rows p.0) tt)
        | inr e ↦ rw e (
            split_rows-IsChain limit rows (current ++ r ∷ []) p.1 (Follows-snoc current r rows p.0)
              (near-IsChain limit current r h f.0 e))
      ]

  split_rows-All :
      (P : Row → Type 0) (limit : ℕ) (rows current : List Row)
      → All P rows
      → All P current
      → All (All P) (split_rows digit limit rows current)
  unfolding split_rows
  split_rows-All P limit [] [] h k = tt
  split_rows-All P limit [] (c ∷ current) h k = (k, tt)
  split_rows-All P limit (r ∷ rows) current h k = elim (Bool-cases (is_far digit limit current r)) [
    | inl e ↦ rw e (k, split_rows-All P limit rows (r ∷ []) h.1 (h.0, tt))
    | inr e ↦ rw e (
        split_rows-All P limit rows (current ++ r ∷ []) h.1
          (All-append P current (r ∷ []) k (h.0, tt)))
  ]

  in_order :
      (rows : List Row)
      → Pairs (λ r s. line_number digit r ≤ line_number digit s) (sorted (member_lt digit) rows)
  unfolding member_lt
  in_order rows =
      sorted-Pairs (member_lt digit) (λ r s. line_number digit r ≤ line_number digit s)
        (λ a b c h k. omega (arith, h, k)) (λ a b e. ground (arith, e)) (λ a b e. ground (arith, e))
        rows

  -- What `IsClose` follows from.
  abbrev IsChained : ℕ → ℕ → Place × List Row → Type 0
  IsChained gap near c = All (λ r. place_of r ≡ c.0) c.1 × IsChain (limit_for gap near c.0) c.1

  map-IsChained :
      (gap near : ℕ) (place : Place) (lists : List (List Row))
      → All (All (λ r. place_of r ≡ place)) lists
      → All (IsChain (limit_for gap near place)) lists
      → All (IsChained gap near) (map (λ chain. (place, chain)) lists)
  map-IsChained gap near place [] h k = tt
  map-IsChained gap near place (rows ∷ lists) h k =
      ((h.0, k.0), map-IsChained gap near place lists h.1 k.1)

  chains_of-IsChained :
      (gap near : ℕ) (g : Group) → InPlace g → All (IsChained gap near) (chains_of digit gap near g)
  unfolding chains_of Follows
  chains_of-IsChained gap near (place, rows) h =
      let limit = limit_for gap near place in
      let members = sorted (member_lt digit) rows in
      map-IsChained gap near place (split_rows digit limit members [])
        (split_rows-All (λ r. place_of r ≡ place) limit members []
          (All-sorted (member_lt digit) (λ r. place_of r ≡ place) rows h) tt)
        (split_rows-IsChain limit members [] (in_order rows) (nothing_first members) tt)
    where
      nothing_first : (rows : List Row) → All (Follows []) rows
      nothing_first [] = tt
      nothing_first (r ∷ rows) = (tt, nothing_first rows)

  chains_of_all-IsChained :
      (gap near : ℕ) (groups : List Group)
      → All InPlace groups
      → All (IsChained gap near) (chains_of_all digit gap near groups)
  unfolding chains_of_all
  chains_of_all-IsChained gap near [] h = tt
  chains_of_all-IsChained gap near (g ∷ groups) h =
      All-append (IsChained gap near) (chains_of digit gap near g) _
        (chains_of-IsChained gap near g h.0) (chains_of_all-IsChained gap near groups h.1)

  -- The rows share the place, and their lines ascend: by at most `gap` where the place is in a
  -- function, and by at most `near` where it is in none.
  pub record IsClose (gap near : ℕ) (c : Place × List Row) : Type 0 where
    pub shared : All (λ r. IsAt r c.0) c.1
    pub in_function : is_empty c.0.1 ≡ false → IsChain gap c.1
    pub in_none : is_empty c.0.1 ≡ true → IsChain near c.1

  IsChained→IsClose :
      (gap near : ℕ) (c : Place × List Row) → IsChained gap near c → IsClose gap near c
  unfolding limit_for
  IsChained→IsClose gap near (p, rows) h = record {
    shared = All-map (λ r. place_of r ≡ p) (λ r. IsAt r p) (λ r e. place_of-IsAt r p e) rows h.0;
    in_function = λ e. let k = rw e at h.1 in k;
    in_none = λ e. let k = rw e at h.1 in k;
  }

  -- The rows of one cluster have one path, one function and one family. Those that correlate across
  -- tools, by their family and a CWE number or the model as engine, share the empty rule, and the
  -- others the rule that they all give. Their lines ascend from each to the next by at most `gap`,
  -- or by at most `near` where the function is empty.
  pub chains-IsClose :
      (gap near : ℕ) (rows : List Row) → All (IsClose gap near) (chains digit gap near rows)
  unfolding chains
  chains-IsClose gap near rows =
      All-map (IsChained gap near) (IsClose gap near) (IsChained→IsClose gap near) _ (
        chains_of_all-IsChained gap near _ (
          All-sorted (λ g h. place_lt g.0 h.0) InPlace (foldl add_finding [] rows)
            (foldl_inv (All InPlace) add_finding add_finding-InPlace [] rows tt)))
