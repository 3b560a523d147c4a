-- ===== src/Schema/Extract.antt =====
-- code_analyzer/harness/schema.py: how the findings are looked for in a response. `loads` stands
-- for `json.loads`, with none where it raises one of the three exceptions that are caught;
-- `fenced` for the groups of `_FENCE` and `unopened` for `_FENCE_OPENER.sub("", _)`.
pub mod Repair
pub mod Spans
pub mod Payload
use code_analyzer.Prelude.{
  ℕ, zero, suc, ◌+◌, ◌-◌, Bool, true, false, ◌&&◌, ◌||◌, not, Option, none, some, List, [], ◌∷◌,
  ◌++◌, map, ◌==◌, if◌then◌else◌, take, foldl, ◌⊎◌, inl, inr,
}
use code_analyzer.Prelude.Text.{Text, codes, is_space, is_empty, strip, lstrip}
use code_analyzer.Schema.Values.{Json, Items, arr, obj, Fields, elements, get, end, field, Digit}
use code_analyzer.Schema.{Outcome, ok, ◌>>=◌, Finding, Reason, collect}
use mathlib.Core.List.{reverse}
use mathlib.Core.Option

-- Where a scan stands: outside a string, in one, or in one behind a backslash.
pub data Place : Type 0 where
  outside inside escaped : Place

abbrev pub closer_of : ℕ → Option ℕ
closer_of c = if c == b'{' then some b'}' else if c == b'[' then some b']' else none

-- What one character does inside a string.
abbrev pub in_string : Place → ℕ → Place
in_string escaped c = inside
in_string p c = if c == b'\\' then escaped else if c == b'"' then outside else inside

abbrev scan_step : ℕ → ℕ → ℕ → Place → ℕ → ℕ × Place
scan_step opener closer depth outside c =
    if c == b'"'
    then (depth, inside)
    else if c == opener
    then (depth + 1, outside)
    else if c == closer
    then (depth - 1, outside)
    else (depth, outside)
scan_step opener closer depth p c = (depth, in_string p c)

abbrev closes : ℕ → ℕ → ℕ → Place → ℕ → Bool
closes opener closer depth outside c =
    not (c == b'"') && not (c == opener) && c == closer && depth - 1 == 0
closes opener closer depth p c = false

-- `_matching` from an index on, as the count of characters in front of the closer. The scan begins
-- at an opener, so that the depth at a closer is at least 1.
unfoldable pub matching : ℕ → ℕ → ℕ → Place → Text → Option ℕ
matching opener closer depth p [] = none
matching opener closer depth p (c ∷ s) =
    let next = scan_step opener closer depth p c in
    let rest = matching opener closer next.0 next.1 s in
    if closes opener closer depth p c then some 0 else Option.map suc rest

-- The distance from the first character to the closer, where the character is an opener.
pub span_at : Text → Option ℕ
span_at [] = none
span_at (c ∷ s) = elim (closer_of c) [
  | none ↦ none
  | some closer ↦ matching c closer 0 outside (c ∷ s)
]

-- `_spans` from an index on; `skip` characters more belong to the span found last.
unfoldable pub spans : (skip : ℕ) → Text → List Text
spans skip [] = []
spans (suc skip) (c ∷ s) = spans skip s
spans zero (c ∷ s) = elim (span_at (c ∷ s)) [
  | none ↦ spans 0 s
  | some n ↦ take (suc n) (c ∷ s) ∷ spans n s
]

abbrev drop_comma : Text → Text
drop_comma [] = []
drop_comma (c ∷ out) = if c == b',' then out else c ∷ out

-- One round of `_drop_trailing_commas`; `out` has its last character first.
abbrev pub drop_step : Text × Place → ℕ → Text × Place
drop_step (out, outside) c =
    if c == b'"'
    then (c ∷ out, inside)
    else if c == b'}' || c == b']'
    then (c ∷ drop_comma (lstrip out), outside)
    else (c ∷ out, outside)
drop_step (out, p) c = (c ∷ out, in_string p c)

-- `_drop_trailing_commas`
pub drop_trailing_commas : Text → Text
drop_trailing_commas t = reverse (foldl drop_step ([], outside) t).0

-- What stands behind the last fence, where there is one.
abbrev behind_fence : Text → Option Text
behind_fence (a ∷ b ∷ c ∷ s) = if a == b'`' && b == b'`' && c == b'`' then some s else none
behind_fence _ = none

pub behind_last_fence : Text → Option Text
behind_last_fence [] = none
behind_last_fence (c ∷ s) = elim (behind_last_fence s) [
  | some rest ↦ some rest
  | none ↦ behind_fence (c ∷ s)
]

-- The problem of a response that has no findings.
pub data Problem : Type 0 where
  empty_response no_json not_a_container no_array : Problem

pub data Found : Type 0 where
  found : List Json → Found
  missing : Problem → Found

-- `_looks_like_finding`
abbrev pub looks_like_finding : Fields → Bool
looks_like_finding fields =
    is_some (get (codes "file") fields) && is_some (get (codes "message") fields)
  where
    is_some : Option Json → Bool
    is_some none = false
    is_some (some _) = true

-- The first value that is an object with findings in it.
abbrev first_nested : (Fields → Found) → Fields → Option (List Json)
first_nested look end = none
first_nested look (field k (obj fields) rest) = elim (look fields) [
  | found items ↦ some items
  | missing _ ↦ first_nested look rest
]
first_nested look (field k _ rest) = first_nested look rest

abbrev pub or_itself : Fields → Option (List Json) → Found
or_itself fields (some items) = found items
or_itself fields none =
    if looks_like_finding fields then found (obj fields ∷ []) else missing no_array

-- `_findings_array` of an object; `levels` is 3 - depth.
pub fields_array : (levels : ℕ) → Fields → Found
fields_array zero fields = elim (get (codes "findings") fields) [
  | some (arr items) ↦ found (elements items)
  | _ ↦ or_itself fields none
]
fields_array (suc levels) fields = elim (get (codes "findings") fields) [
  | some (arr items) ↦ found (elements items)
  | _ ↦ or_itself fields (first_nested (fields_array levels) fields)
]

-- `_findings_array` of what `json.loads` returned
pub findings_array : Json → Found
findings_array (arr items) = found (elements items)
findings_array (obj fields) = fields_array 3 fields
findings_array _ = missing not_a_container

abbrev pub or_problem : Option Problem → Problem → Problem
or_problem (some p) q = p
or_problem none q = q

module _ (fenced : Text → List Text) (unopened : Text → Text) where
  -- `_candidates`
  unfoldable pub candidates : Text → List Text
  candidates text =
      (strip text ∷ map strip (fenced text))
      ++ (elim (behind_last_fence text) [ none ↦ [] | some rest ↦ strip (unopened rest) ∷ [] ])
      ++ spans 0 text

module _ (loads : Text → Option Json) where
  -- The first attempt at a candidate that `json.loads` reads.
  unfoldable pub attempt : Text → Option Json
  attempt candidate = elim (loads candidate) [
    | some value ↦ some value
    | none ↦ loads (drop_trailing_commas candidate)
  ]

  -- The loop of `_payload` over the candidates, with its `fallback`.
  pub first_found : Option Problem → List Text → Found
  first_found fallback [] = missing (or_problem fallback no_json)
  first_found fallback (candidate ∷ rest) = elim (attempt candidate) [
    | none ↦ first_found fallback rest
    | some value ↦ elim (findings_array value) [
      | found items ↦ found items
      | missing problem ↦ first_found (some (or_problem fallback problem)) rest
    ]
  ]

-- `_payload`
pub payload :
    (loads : Text → Option Json) (fenced : Text → List Text) (unopened : Text → Text) → Text → Found
payload loads fenced unopened text =
    if is_empty (strip text)
    then missing empty_response
    else first_found loads none (candidates fenced unopened text)

-- `parse_findings`; a response that no findings are read from is one problem report.
pub parse_findings :
    (unicode : ℕ → Digit) (loads : Text → Option Json) (fenced : Text → List Text)
    (unopened : Text → Text)
    → Text
    → Outcome (Found ⊎ (List Finding × List (ℕ × Reason)))
parse_findings unicode loads fenced unopened text = elim (payload loads fenced unopened text) [
  | missing problem ↦ ok (inl (missing problem))
  | found items ↦ collect unicode 0 items >>= λ r. ok (inr r)
]
