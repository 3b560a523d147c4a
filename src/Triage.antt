-- ===== src/Triage.antt =====
-- evidence/triage.py: the clusters of the finding rows. A row has the family, the function and
-- the hash of its line that `cluster` has written into it; `digit` stands for the Unicode
-- database and `sha256` for the hash in hexadecimal.
use code_analyzer.Prelude.{
  ℕ, zero, suc, ◌+◌, ◌-◌, ◌||◌, ◌&&◌, Bool, true, false, not, Option, none, some, List, [], ◌∷◌,
  ◌++◌, map, foldl, ltb, leb, ◌==◌, if◌then◌else◌, take, any,
}
use code_analyzer.Prelude.Text.{Text, codes, text_eq, text_lt, is_empty, decimal}
use code_analyzer.Prelude.Sort.{sorted}
use code_analyzer.Numbering.Number.{ℤ, pos, negsuc, int_of}
pub mod Conserved
pub mod Chained
mod Examples

pub record Row : Type 0 where
  path : Text
  function : Text
  family : Text
  rule_id : Text
  cwe : Text
  engine : Text
  view_class : Text
  line : Text
  line_text_sha : Text
  tool : Text
  fingerprint : Text
  call_id : Text
  unit_id : Text

-- `CORRELATING_FAMILIES`
unfoldable pub correlating_families : List Text
correlating_families = map codes (
    "buffer" ∷ "null-dereference" ∷ "uninitialized" ∷ "resource-leak" ∷ "format" ∷ "randomness"
    ∷ "integer-overflow" ∷ "use-after-free" ∷ "double-free" ∷ "race" ∷ "injection" ∷ "crypto-misuse"
    ∷ "division-by-zero" ∷ "out-of-bounds" ∷ [])

-- `clustering_rule`
unfoldable pub clustering_rule : Row → Text
unfolding correlating_families
clustering_rule r =
    if any (text_eq r.family) correlating_families
      && (not (is_empty r.cwe) || text_eq r.engine (codes "llm"))
    then []
    else r.rule_id

-- `function_at` over the spans of one file in order: start, end and name.
unfoldable pub function_at : ℕ → Text → List (ℕ × ℕ × Text) → Text
function_at line best [] = best
function_at line best ((start, end, name) ∷ spans) =
    let rest = function_at line (if leb start line && leb line end then name else best) spans in
    if ltb line start then best else rest

-- `text.split("-", 1)[0]`
unfoldable pub before_dash : Text → Text
before_dash [] = []
before_dash (c ∷ s) = let rest = before_dash s in if c == 45 then [] else c ∷ rest

-- `max(0, n)`
unfoldable pub not_negative : Option ℤ → ℕ
not_negative none = 0
not_negative (some (pos n)) = n
not_negative (some (negsuc n)) = 0

-- `line_number`
unfoldable pub line_number : (ℕ → Option ℕ) → Row → ℕ
unfolding before_dash not_negative
line_number digit r =
    not_negative (int_of digit (before_dash (if is_empty r.line then codes "0" else r.line)))

-- `key`
abbrev pub Key : Type 0
Key = Text × Text × Text

unfoldable pub key_of : Row → Key
key_of r = (r.fingerprint, r.call_id, r.unit_id)

unfoldable pub key_lt : Key → Key → Bool
key_lt (a, b, c) (d, e, f) =
    text_lt a d || (text_eq a d && (text_lt b e || (text_eq b e && text_lt c f)))

-- The key of a group.
abbrev pub Place : Type 0
Place = Text × Text × Text × Text

unfoldable pub place_of : Row → Place
unfolding clustering_rule
place_of r = (r.path, r.function, r.family, clustering_rule r)

unfoldable pub place_eq : Place → Place → Bool
place_eq (a, b, c, d) (e, f, g, h) = text_eq a e && (text_eq b f && (text_eq c g && text_eq d h))

unfoldable pub place_lt : Place → Place → Bool
place_lt (a, b, c, d) (e, f, g, h) =
    text_lt a e
    || (text_eq a e
        && (text_lt b f || (text_eq b f && (text_lt c g || (text_eq c g && text_lt d h)))))

abbrev pub Group : Type 0
Group = Place × List Row

-- `groups[place].append(row)`
unfoldable pub add_row : Row → Place → List Group → List Group
unfolding place_eq
add_row r place [] = (place, r ∷ []) ∷ []
add_row r place ((p, rows) ∷ groups) =
    if place_eq p place then (p, rows ++ r ∷ []) ∷ groups else (p, rows) ∷ add_row r place groups

unfoldable pub is_finding : Row → Bool
is_finding r = text_eq r.view_class (codes "finding")

-- The first loop of `cluster`.
unfoldable pub add_finding : List Group → Row → List Group
unfolding is_finding place_of add_row
add_finding groups r = if is_finding r then add_row r (place_of r) groups else groups

-- A cluster, with the keys of its members and the elements of its set of tools.
pub record Cluster : Type 0 where
  id : Text
  place : Place
  line_start : ℕ
  line_end : ℕ
  members : List Key
  tools : List Text

-- `seen[anchor]`
unfoldable pub times_seen : Text → List Text → ℕ
times_seen anchor [] = 0
times_seen anchor (t ∷ seen) = (if text_eq t anchor then 1 else 0) + times_seen anchor seen

unfoldable pub last_row : Row → List Row → Row
last_row r [] = r
last_row r (s ∷ rows) = last_row s rows

-- The variable `limit`.
unfoldable pub limit_for : ℕ → ℕ → Place → ℕ
limit_for gap near (path, function, family, rule) = if is_empty function then near else gap

module _ (digit : ℕ → Option ℕ) where
  -- The order of a group's members.
  unfoldable pub member_lt : Row → Row → Bool
  unfolding line_number key_of key_lt
  member_lt r s =
      ltb (line_number digit r) (line_number digit s)
      || (line_number digit r == line_number digit s && key_lt (key_of r) (key_of s))

  -- The row is too far behind the last one of `current`.
  unfoldable pub is_far : ℕ → List Row → Row → Bool
  unfolding last_row
  is_far limit [] r = false
  is_far limit (c ∷ current) r =
      ltb limit (line_number digit r - line_number digit (last_row c current))

  -- The inner loop of `cluster`, with its variable `current`: the members of each cluster.
  unfoldable pub split_rows : ℕ → List Row → List Row → List (List Row)
  unfolding is_far
  split_rows limit [] [] = []
  split_rows limit [] (c ∷ current) = (c ∷ current) ∷ []
  split_rows limit (r ∷ rows) current =
      let far = is_far limit current r in
      let rest = split_rows limit rows (if far then r ∷ [] else current ++ r ∷ []) in
      if far then current ∷ rest else rest

  unfoldable pub chains_of : ℕ → ℕ → Group → List (Place × List Row)
  unfolding member_lt split_rows limit_for
  chains_of gap near (place, rows) =
      map (λ chain. (place, chain))
        (split_rows (limit_for gap near place) (sorted member_lt rows) [])

  unfoldable pub chains_of_all : ℕ → ℕ → List Group → List (Place × List Row)
  unfolding chains_of
  chains_of_all gap near [] = []
  chains_of_all gap near (g ∷ groups) = chains_of gap near g ++ chains_of_all gap near groups

  -- The members of each cluster, with the key of their group.
  unfoldable pub chains : ℕ → ℕ → List Row → List (Place × List Row)
  unfolding add_finding place_lt chains_of_all
  chains gap near rows =
      chains_of_all gap near (sorted (λ g h. place_lt g.0 h.0) (foldl add_finding [] rows))

  -- The variable `anchor` of `_close`, the parts joined by the character 0.
  unfoldable pub anchor_of : Place → Row → Text
  anchor_of (path, function, family, rule) first =
      path
      ++ 0 ∷ function
      ++ 0 ∷ family
      ++ 0 ∷ rule
      ++ 0
        ∷ (if is_empty first.line_text_sha
            then decimal (line_number digit first)
            else first.line_text_sha)

  module _ (sha256 : Text → Text) where
    -- `_close`, with the anchors of the clusters so far for `seen`.
    unfoldable pub close : Place → Row → List Row → List Text → Cluster
    unfolding anchor_of times_seen last_row key_of
    close place first rows seen =
        let anchor = anchor_of place first in
        record {
          id = codes "K" ++ take 12 (sha256 (anchor ++ 0 ∷ decimal (times_seen anchor seen)));
          place = place;
          line_start = line_number digit first;
          line_end = line_number digit (last_row first rows);
          members = map key_of (first ∷ rows);
          tools = map (λ r. r.tool) (first ∷ rows);
        }

    unfoldable pub close_all : List (Place × List Row) → List Text → List Cluster
    unfolding close
    close_all [] seen = []
    close_all ((place, []) ∷ chains) seen = close_all chains seen
    close_all ((place, first ∷ rows) ∷ chains) seen =
        close place first rows seen ∷ close_all chains (anchor_of place first ∷ seen)

    -- `cluster`
    unfoldable pub cluster : ℕ → ℕ → List Row → List Cluster
    unfolding chains close_all
    cluster gap near rows = close_all (chains gap near rows) []
