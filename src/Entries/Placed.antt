-- ===== src/Entries/Placed.antt =====
-- What the vulnerability list has of the clusters, and in which part.
use code_analyzer.Prelude.{
  ℕ, suc, ◌+◌, ◌≤◌, ◌<◌, ◌≡◌, ◌≢◌, Bool, true, false, not, ◌&&◌, Option, none, some, List, [], ◌∷◌,
  map, length, All, if◌then◌else◌, ◌⊎◌,
}
use code_analyzer.Prelude.Text.{Text, codes, is_empty}
use code_analyzer.Entries.{
  Row, Grade, Cluster, Partition, main, unmapped, below, Entry, Triage, unmapped_level,
}

abbrev pub is_main : Entry → Bool
is_main e = elim e.partition [ main ↦ true | unmapped ↦ false | below ↦ false ]

abbrev pub is_unmapped : Entry → Bool
is_unmapped e = elim e.partition [ main ↦ false | unmapped ↦ true | below ↦ false ]

abbrev pub is_below : Entry → Bool
is_below e = elim e.partition [ main ↦ false | unmapped ↦ false | below ↦ true ]

-- How many of the entries pass a test.
abbrev pub count_where : (Entry → Bool) → List Entry → ℕ
count_where test [] = 0
count_where test (e ∷ entries) = (if test e then 1 else 0) + count_where test entries

abbrev pub has_module : Option Text → Bool
has_module none = false
has_module (some m) = true

module _ (rank : Text → ℕ) (min_level : Text) where
  -- Where an entry of that level, with that origin, belongs.
  pub record Placed (level origin : Text) (multi : Bool) (partition : Partition) : Type 0 where
    pub ungraded : level ≡ unmapped_level → partition ≡ unmapped
    pub high : level ≢ unmapped_level → rank min_level ≤ rank level → partition ≡ main
    pub agreed : level ≢ unmapped_level → multi ≡ true → partition ≡ main
    pub is_main : partition ≡ main → (rank min_level ≤ rank level) ⊎ (multi ≡ true)
    pub is_below :
        partition ≡ below
        → (level ≢ unmapped_level)
          × (rank level < rank min_level)
          × (multi ≡ false)
          × (origin ≡ codes "tool")

  abbrev pub IsPlaced : Entry → Type 0
  IsPlaced e = Placed e.level e.origin e.multi_engine e.partition

module _ (rank : Text → ℕ) (grade : Row → Grade) (module_of : Text → Option Text)
    (sfrs_for : Row → Text → List (Text × Text)) (digest : Text → Text) (min_level : Text) where
  -- The ids of the clusters that lie in a module of the TOE and have a member.
  abbrev pub ids_inside : List Cluster → List Text
  ids_inside [] = []
  ids_inside (c ∷ clusters) =
      let rest = ids_inside clusters in
      if has_module (module_of c.path) && not (is_empty c.members) then c.id ∷ rest else rest

  -- What the list must have of the clusters.
  pub record IsComplete (clusters : List Cluster) (t : Triage) : Type 0 where
    pub ids : map (λ e. e.cluster_id) t.entries ≡ ids_inside clusters
    pub outside : length t.entries + t.outside_toe ≡ length clusters
    pub main_count : t.counts.0 ≡ count_where is_main t.entries
    pub unmapped_count : t.counts.1 ≡ count_where is_unmapped t.entries
    pub below_count : t.counts.2 ≡ count_where is_below t.entries
    pub placed : All (IsPlaced rank min_level) t.entries

  -- What one round of the loop does.
  record IsAdded (c : Cluster) (o : Option Text) (members : List Row) (old new : List Entry × ℕ)
      : Type 0 where
    ids : map (λ e. e.cluster_id) new.0 ≡ (
        if has_module o && not (is_empty members)
        then c.id ∷ map (λ e. e.cluster_id) old.0
        else map (λ e. e.cluster_id) old.0)
    outside : length new.0 + new.1 ≡ suc (length old.0 + old.1)
    placed : All (IsPlaced rank min_level) old.0 → All (IsPlaced rank min_level) new.0
