-- ===== src/Numbering.antt =====
-- sesip/pv.py: the stable numbers of the vulnerability list. `digit` stands for the Unicode
-- database, the decimal value of a character that `int` reads as a digit.
use code_analyzer.Prelude.{
  ℕ, zero, suc, ◌+◌, ◌-◌, ◌*◌, ◌||◌, ◌&&◌, Bool, true, false, not, Option, none, some, List, [],
  ◌∷◌, ◌++◌, map, foldl, max, ltb, leb, ◌==◌, if◌then◌else◌, length, get_elem?, any,
}
use code_analyzer.Prelude.Text.{Text, codes, text_eq, text_lt, is_empty, strip, decimal}
use code_analyzer.Prelude.Sort.{sorted}
use code_analyzer.Numbering.Number.{
  ℤ, pos, negsuc, int_lt, negated, behind_dash, digits_value, signed_value, int_of, num, zeros,
  pv_code,
}
use code_analyzer.Entries.{Entry, Partition, main, unmapped, below}
pub mod Number
pub mod Codes
pub mod Labels
pub mod Matched
pub mod Visits
pub mod Places
pub mod Rows
pub mod Distinct
mod Examples

-- A record of an earlier triage, the dict that `numbering_record` returns.
pub record Old : Type 0 where
  pv_id : Text
  anchor : Text
  members : List Text
  path : Text
  function : Text
  family : Text
  decisive_line_sha : Text

-- `partition in ("main", "unmapped")`
unfoldable pub is_listed : Entry → Bool
is_listed e = elim e.partition [ main ↦ true | unmapped ↦ true | below ↦ false ]

unfoldable pub listed_of : List Entry → List Entry
unfolding is_listed
listed_of [] = []
listed_of (e ∷ entries) = let rest = listed_of entries in if is_listed e then e ∷ rest else rest

-- The number of an entry and how it was found, the fields `pv_id` and `match`.
abbrev pub Label : Type 0
Label = Text × Text

-- What `number` has done: a place for each entry of `listed`, empty while the entry's index is
-- not in `taken_new`, and the set `taken_old`.
pub record Numbered : Type 0 where
  labels : List (Option Label)
  taken_old : List Text

unfoldable pub has_text : Text → List Text → Bool
has_text t ts = any (text_eq t) ts

unfoldable pub set_at : ℕ → Label → List (Option Label) → List (Option Label)
set_at index label [] = []
set_at zero label (_ ∷ labels) = some label ∷ labels
set_at (suc index) label (l ∷ labels) = l ∷ set_at index label labels

-- `index not in taken_new`
unfoldable pub is_free : ℕ → List (Option Label) → Bool
is_free index [] = false
is_free zero (none ∷ labels) = true
is_free zero (some _ ∷ labels) = false
is_free (suc index) (_ ∷ labels) = is_free index labels

-- `bind`
unfoldable pub bind : ℕ → Old → Text → Numbered → Numbered
unfolding set_at
bind index record_ how st = record {
  labels = set_at index (record_.pv_id, how) st.labels;
  taken_old = record_.pv_id ∷ st.taken_old;
}

-- `by_fingerprint[fingerprint]`, the entries from `index` on.
unfoldable pub with_member : Text → ℕ → List Entry → List ℕ
with_member fingerprint index [] = []
with_member fingerprint index (e ∷ entries) =
    map (λ _. index) (same fingerprint e.members) ++ with_member fingerprint (index + 1) entries
  where
    same : Text → List Text → List Text
    same t [] = []
    same t (u ∷ us) = let rest = same t us in if text_eq t u then u ∷ rest else rest

-- `shared[index] += 1`
unfoldable pub count_one : List (ℕ × ℕ) → ℕ → List (ℕ × ℕ)
count_one [] index = (index, 1) ∷ []
count_one ((i, n) ∷ shared) index =
    let rest = count_one shared index in if i == index then (i, n + 1) ∷ shared else (i, n) ∷ rest

-- The variable `shared` of one record.
unfoldable pub shared_of : List Entry → List Text → List (ℕ × ℕ) → List (ℕ × ℕ)
unfolding with_member count_one
shared_of listed [] shared = shared
shared_of listed (fingerprint ∷ members) shared =
    shared_of listed members (foldl count_one shared (with_member fingerprint 0 listed))

-- An element of `pairs`; `count` stands for its negative.
pub record Pair : Type 0 where
  count : ℕ
  number : ℤ
  index : ℕ
  old : Old

unfoldable pub int_eq : ℤ → ℤ → Bool
int_eq (pos m) (pos n) = m == n
int_eq (negsuc m) (negsuc n) = m == n
int_eq _ _ = false

-- The order of the keys `(-count, _num(pv_id), index)`.
unfoldable pub pair_lt : Pair → Pair → Bool
unfolding int_lt int_eq
pair_lt p q =
    ltb q.count p.count
    || (p.count == q.count
        && (int_lt p.number q.number || (int_eq p.number q.number && ltb p.index q.index)))

-- The order of the keys `(path, line_start, anchor)`.
unfoldable pub entry_lt : Entry → Entry → Bool
entry_lt e f =
    text_lt e.path f.path
    || (text_eq e.path f.path
        && (ltb e.line_start f.line_start
            || (e.line_start == f.line_start && text_lt e.anchor f.anchor)))

-- The entries that a test holds of and that are still without a number, with their index.
unfoldable pub free_where : (Entry → Bool) → ℕ → List Entry → List (Option Label) → List (ℕ × Entry)
free_where p index [] labels = []
free_where p index (e ∷ entries) [] = []
free_where p index (e ∷ entries) (some _ ∷ labels) = free_where p (index + 1) entries labels
free_where p index (e ∷ entries) (none ∷ labels) =
    let rest = free_where p (index + 1) entries labels in if p e then (index, e) ∷ rest else rest

-- The body of the loop of the first step.
unfoldable pub bind_shared : Numbered → Pair → Numbered
unfolding is_free has_text bind
bind_shared st p =
    if is_free p.index st.labels && not (has_text p.old.pv_id st.taken_old)
    then bind p.index p.old (codes "fingerprint") st
    else st

-- The end of the loops of the second and third step, which bind the first entry that fits.
unfoldable pub bind_first : List (ℕ × Entry) → Old → Text → Numbered → Numbered
unfolding bind
bind_first [] old how st = st
bind_first ((index, _) ∷ _) old how st = bind index old how st

-- The body of the loop of the second step.
unfoldable pub bind_anchor : List Entry → Numbered → Old → Numbered
unfolding has_text free_where bind_first
bind_anchor listed st old =
    if has_text old.pv_id st.taken_old
    then st
    else bind_first (free_where (λ e. text_eq e.anchor old.anchor) 0 listed st.labels) old
        (codes "anchor") st

-- The entry is in the record's place and still has its decisive line.
unfoldable pub is_moved : Old → Entry → Bool
unfolding has_text
is_moved old e =
    text_eq e.path old.path
    && (text_eq e.function old.function
        && (text_eq e.family old.family && has_text old.decisive_line_sha e.member_line_shas))

-- The body of the loop of the third step.
unfoldable pub bind_moved : List Entry → Numbered → Old → Numbered
unfolding has_text free_where bind_first is_moved
bind_moved listed st old =
    if has_text old.pv_id st.taken_old || is_empty old.decisive_line_sha
    then st
    else bind_first (free_where (is_moved old) 0 listed st.labels) old (codes "moved") st

-- The variables of the fourth step.
abbrev pub Fresh : Type 0
Fresh = List (Option Label) × ℕ

-- The body of the loop of the fourth step.
unfoldable pub bind_new : Fresh → ℕ × Entry → Fresh
unfolding set_at pv_code
bind_new (labels, highest) (index, _) =
    (set_at index (pv_code (highest + 1), codes "new") labels, highest + 1)

unfoldable pub unlabelled : List Entry → List (Option Label)
unlabelled [] = []
unlabelled (_ ∷ entries) = none ∷ unlabelled entries

-- The entries with what their fields `pv_id` and `match` then hold.
unfoldable pub labelled : List Entry → List (Option Label) → List (Entry × Label)
unfolding is_listed
labelled [] labels = []
labelled (e ∷ entries) [] = (e, ([], [])) ∷ labelled entries []
labelled (e ∷ entries) (l ∷ labels) = elim (is_listed e) [
  | true ↦ (e, elim l [ none ↦ ([], []) | some label ↦ label ]) ∷ labelled entries labels
  | false ↦ (e, ([], [])) ∷ labelled entries (l ∷ labels)
]

unfoldable pub retired_of : List Text → List Old → List Old
unfolding has_text
retired_of taken [] = []
retired_of taken (o ∷ old) =
    let rest = retired_of taken old in if has_text o.pv_id taken then rest else o ∷ rest

module _ (digit : ℕ → Option ℕ) where
  -- The variable `pairs`.
  unfoldable pub pairs_of : List Entry → List Old → List Pair
  unfolding shared_of num
  pairs_of listed [] = []
  pairs_of listed (o ∷ old) =
      map (λ c. record { count = c.1; number = num digit o.pv_id; index = c.0; old = o })
        (shared_of listed o.members [])
      ++ pairs_of listed old

  -- The variable `old`.
  unfoldable pub old_of : List Old → List Old
  unfolding int_lt num
  old_of previous = sorted (λ p q. int_lt (num digit p.pv_id) (num digit q.pv_id)) previous

  -- `max(numbers + [0])`
  unfoldable pub highest_of : List Old → ℕ
  unfolding num
  highest_of [] = 0
  highest_of (o ∷ old) =
      max (elim (num digit o.pv_id) [ pos n ↦ n | negsuc _ ↦ 0 ]) (highest_of old)

  -- The first three steps.
  unfoldable pub matched : List Entry → List Old → Numbered
  unfolding pairs_of pair_lt bind_shared bind_anchor bind_moved unlabelled
  matched listed old =
      let start : Numbered = record { labels = unlabelled listed; taken_old = [] } in
      let shared = foldl bind_shared start (sorted pair_lt (pairs_of listed old)) in
      foldl (bind_moved listed) (foldl (bind_anchor listed) shared old) old

  -- The fourth step.
  unfoldable pub fresh : List Entry → List Old → List (Option Label) → Fresh
  unfolding highest_of free_where entry_lt bind_new
  fresh listed old labels =
      foldl bind_new (labels, highest_of old)
        (sorted (λ p q. entry_lt p.1 q.1) (free_where (λ _. true) 0 listed labels))

  -- `number`
  unfoldable pub number : List Entry → List Old → List (Entry × Label) × List Old
  unfolding old_of listed_of matched fresh labelled retired_of
  number entries previous =
      let old = old_of previous in
      let listed = listed_of entries in
      let st = matched listed old in
      (labelled entries (fresh listed old st.labels).0, retired_of st.taken_old old)

-- `numbering_record`
unfoldable pub numbering_record : Entry × Label → Old
numbering_record (e, label) = record {
  pv_id = label.0;
  anchor = e.anchor;
  members = e.members;
  path = e.path;
  function = e.function;
  family = e.family;
  decisive_line_sha = e.decisive_line_sha;
}
