-- ===== src/Entries.antt =====
-- code_analyzer/sesip/pv.py: the entries of the vulnerability list and their partition. The section's
-- arguments stand for the methods of the profile and for the hash of the anchor; a cluster
-- has the rows that `members_of` gives for it.
pub mod Placed
mod Examples
use code_analyzer.Prelude.{
  ℕ, zero, suc, ◌+◌, ◌*◌, Bool, true, false, ◌&&◌, ◌||◌, not, Option, none, some, List, [], ◌∷◌,
  ◌++◌, map, ltb, leb, ◌==◌, if◌then◌else◌, any, length,
}
use code_analyzer.Prelude.Text.{Text, text_eq, text_lt, codes, is_empty, decimal}
use code_analyzer.Prelude.Dict.{lookup, insert}
use code_analyzer.Risk.{starts_with}

abbrev pub security_families : List Text
security_families = map codes (
    "buffer" ∷ "null-dereference" ∷ "uninitialized" ∷ "resource-leak" ∷ "format" ∷ "randomness"
    ∷ "integer-overflow" ∷ "use-after-free" ∷ "double-free" ∷ "race" ∷ "injection" ∷ "crypto-misuse"
    ∷ "division-by-zero" ∷ "out-of-bounds" ∷ [])

pub record Row : Type 0 where
  pub tool : Text
  pub engine : Text
  pub fingerprint : Text
  pub line_text_sha : Text
  pub evidence_context : Text
  pub line : ℕ

pub record Grade : Type 0 where
  pub level : Text
  pub basis : Text
  pub suggestion : Text

pub record Cluster : Type 0 where
  pub id : Text
  pub path : Text
  pub function : Text
  pub family : Text
  pub line_start : ℕ
  pub line_end : ℕ
  pub members : List Row

pub data Partition : Type 0 where
  main unmapped below : Partition

pub record Entry : Type 0 where
  pub cluster_id : Text
  pub anchor : Text
  pub path : Text
  pub function : Text
  pub family : Text
  pub line_start : ℕ
  pub line_end : ℕ
  pub toe_module : Text
  pub partition : Partition
  pub level : Text
  pub level_basis : Text
  pub proposed_level : Text
  pub sfr : List (Text × Text)
  pub tools : List Text
  pub members : List Text
  pub member_line_shas : List Text
  pub decisive_line_sha : Text
  pub priority : ℕ
  pub multi_engine : Bool
  pub origin : Text

pub record Triage : Type 0 where
  pub entries : List Entry
  pub outside_toe : ℕ
  pub counts : ℕ × ℕ × ℕ

-- A sorted set of texts.
abbrev pub add_text : Text → List Text → List Text
add_text t [] = t ∷ []
add_text t (u ∷ us) =
    let rest = add_text t us in
    if text_eq t u then u ∷ us else if text_lt t u then t ∷ u ∷ us else u ∷ rest

abbrev pub set_of : List Text → List Text
set_of [] = []
set_of (t ∷ ts) = add_text t (set_of ts)

abbrev pub filled : List Text → List Text
filled [] = []
filled (t ∷ ts) = let rest = filled ts in if is_empty t then rest else t ∷ rest

-- Pairs with different keys, sorted.
abbrev pub add_pair : Text × Text → List (Text × Text) → List (Text × Text)
add_pair p [] = p ∷ []
add_pair p (q ∷ qs) = let rest = add_pair p qs in if text_lt p.0 q.0 then p ∷ q ∷ qs else q ∷ rest

abbrev pub sorted_pairs : List (Text × Text) → List (Text × Text)
sorted_pairs [] = []
sorted_pairs (p ∷ ps) = add_pair p (sorted_pairs ps)

abbrev pub is_static : Row → Bool
is_static r = not (text_eq r.engine (codes "llm"))

abbrev pub static_rows : List Row → List Row
static_rows [] = []
static_rows (r ∷ rows) = let rest = static_rows rows in if is_static r then r ∷ rest else rest

-- The partition by the grade and by the tools that agree.
abbrev pub partition_of : (graded ranked multi ai : Bool) → Partition
partition_of graded ranked multi ai =
    if not graded
    then unmapped
    else if ranked || multi
    then main
    else if ai
    then unmapped
    else below

-- The first of the highest, by a rank and then by the lower line.
abbrev pub better : ℕ × ℕ → ℕ × ℕ → Bool
better (rank, line) (best_rank, best_line) =
    ltb best_rank rank || (rank == best_rank && ltb line best_line)

abbrev pub best : (Row → ℕ × ℕ) → Row → List Row → Row
best key row [] = row
best key row (r ∷ rows) = best key (if better (key r) (key row) then r else row) rows

abbrev pub origin_of : (has_static ai : Bool) → Text
origin_of has_static ai =
    if ai then (if has_static then codes "tool+ai" else codes "ai") else codes "tool"

abbrev pub one : Bool → ℕ
one b = if b then 1 else 0

-- `UNMAPPED`, `PROVABLE_BASES` and `STRONG_SFR_BASES` of code_analyzer/sesip/profile.py
abbrev pub unmapped_level : Text
unmapped_level = codes "unmapped"

abbrev pub is_provable : Text → Bool
is_provable basis =
    any (text_eq basis) (map codes ("native-exact" ∷ "evaluator-rule" ∷ "analyst" ∷ []))

abbrev pub is_strong : Text → Bool
is_strong basis =
    any (text_eq basis) (map codes ("family" ∷ "tsfi" ∷ "ai-confirmed" ∷ "analyst" ∷ []))

module _ (rank : Text → ℕ) (grade : Row → Grade) (module_of : Text → Option Text)
    (sfrs_for : Row → Text → List (Text × Text)) (digest : Text → Text) (min_level : Text) where
  abbrev pub provable_rows : List Row → List Row
  provable_rows [] = []
  provable_rows (r ∷ rows) =
      let rest = provable_rows rows in if is_provable (grade r).basis then r ∷ rest else rest

  abbrev pub rank_line : Row → ℕ × ℕ
  rank_line r = (rank (grade r).level, r.line)

  -- The suggestion of the highest rank, empty where there is none.
  abbrev pub suggested : Text → List Row → Text
  suggested found [] = found
  suggested found (r ∷ rows) =
      let s = (grade r).suggestion in
      suggested
        (if is_empty s
          then found
          else if is_empty found || ltb (rank found) (rank s)
          then s
          else found)
        rows

  -- The level, its basis and the proposal.
  abbrev pub level_of : List Row → List Row → Text × (Text × Text)
  level_of [] members = (unmapped_level, (unmapped_level, suggested [] members))
  level_of (r ∷ rows) members =
      let top = best rank_line r rows in ((grade top).level, ((grade top).basis, []))

  abbrev pub has_strong : Option Text → Bool
  has_strong none = false
  has_strong (some basis) = is_strong basis

  abbrev pub is_known : Option Text → Bool
  is_known none = false
  is_known (some basis) = true

  abbrev pub add_links : List (Text × Text) → List (Text × Text) → List (Text × Text)
  add_links links [] = links
  add_links links ((id, basis) ∷ more) =
      let known = lookup id links in
      add_links
        (if not (is_known known) || (is_strong basis && not (has_strong known))
          then insert id basis links
          else links)
        more

  abbrev pub links_of : Text → List (Text × Text) → List Row → List (Text × Text)
  links_of toe_module links [] = links
  links_of toe_module links (r ∷ rows) =
      links_of toe_module (add_links links (sfrs_for r toe_module)) rows

  abbrev pub anchor_of : Cluster → Row → Text
  anchor_of c decisive =
      let separator = 0 ∷ [] in
      digest (
        c.path
        ++ separator
        ++ c.function
        ++ separator
        ++ c.family
        ++ separator
        ++ (if is_empty decisive.line_text_sha
            then decimal decisive.line
            else decisive.line_text_sha))

  abbrev pub entry_of : Cluster → Text → Row → List Row → Entry
  entry_of c toe_module first rest =
      let members = first ∷ rest in
      let (level, (basis, proposed)) = level_of (provable_rows members) members in
      let tools = set_of (map (λ r. r.tool) members) in
      let static = set_of (map (λ r. r.tool) (static_rows members)) in
      let ai = ltb (length static) (length tools) in
      let multi = leb 2 (length static) in
      let graded = not (text_eq level unmapped_level) in
      let level_rank = if graded then rank level else 0 in
      let decisive = best rank_line first rest in
      let links = links_of toe_module [] members in
      record {
        cluster_id = c.id;
        anchor = anchor_of c decisive;
        path = c.path;
        function = c.function;
        family = c.family;
        line_start = c.line_start;
        line_end = c.line_end;
        toe_module = toe_module;
        partition = partition_of graded (leb (rank min_level) level_rank) multi ai;
        level = level;
        level_basis = basis;
        proposed_level = proposed;
        sfr = sorted_pairs links;
        tools = tools;
        members = set_of (map (λ r. r.fingerprint) members);
        member_line_shas = set_of (filled (map (λ r. r.line_text_sha) members));
        decisive_line_sha = decisive.line_text_sha;
        priority =
            4 * level_rank
            + 3 * one (any (λ l. is_strong l.1) links)
            + 2 * one (any (text_eq c.family) security_families)
            + one multi
            + one (any (λ r. starts_with (codes "build-aware") r.evidence_context) members);
        multi_engine = multi;
        origin = origin_of (not (is_empty static)) ai;
      }

  -- The entry of a cluster in the TOE.
  abbrev pub entry_in : Option Text → Cluster → List Row → Option Entry
  entry_in none c members = none
  entry_in (some toe_module) c [] = none
  entry_in (some toe_module) c (first ∷ rest) = some (entry_of c toe_module first rest)

  abbrev pub count_in : Partition → ℕ × ℕ × ℕ → ℕ × ℕ × ℕ
  count_in main (m, u, b) = (suc m, u, b)
  count_in unmapped (m, u, b) = (m, suc u, b)
  count_in below (m, u, b) = (m, u, suc b)

  -- The loop that counts the entries.
  abbrev pub count_all : List Entry → ℕ × ℕ × ℕ
  count_all [] = (0, 0, 0)
  count_all (e ∷ entries) = count_in e.partition (count_all entries)

  abbrev pub add_entry : Option Entry → List Entry × ℕ → List Entry × ℕ
  add_entry none (entries, outside) = (entries, suc outside)
  add_entry (some e) (entries, outside) = (e ∷ entries, outside)

  -- The loop over the clusters: the entries, and the number of the clusters outside.
  abbrev pub entries_of : List Cluster → List Entry × ℕ
  entries_of [] = ([], 0)
  entries_of (c ∷ clusters) =
      add_entry (entry_in (module_of c.path) c c.members) (entries_of clusters)

  -- `build_entries`
  abbrev pub build_entries : List Cluster → Triage
  build_entries clusters = record {
    entries = (entries_of clusters).0;
    outside_toe = (entries_of clusters).1;
    counts = count_all (entries_of clusters).0;
  }
