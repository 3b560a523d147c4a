-- ===== src/Schema/Extract/Payload.antt =====
-- `_payload` of code_analyzer/harness/schema.py: when findings are read from a response.
use code_analyzer.Prelude.{
  ◌≡◌, refl, sym, ap, ◌∙◌, false, Option, none, some, List, [], ◌∷◌, ◌++◌, all, All,
}
use code_analyzer.Prelude.Text.{Text, is_empty, strip}
use code_analyzer.Schema.Values.{Json}
use code_analyzer.Schema.Extract.{
  Problem, Found, found, missing, findings_array, candidates, attempt, first_found, payload,
  or_problem,
}

some_injective : (a b : Json) → some a ≡ some b → a ≡ b
some_injective a b e = cc

none_differs : (a : Json) → none ≡ some a → ⊥
none_differs a e = cc

module _ (loads : Text → Option Json) where
  -- The candidate is read as a value with a findings array.
  abbrev pub Yields : List Json → Text → Type 0
  Yields items candidate =
      (value : Json) × (attempt loads candidate ≡ some value) × (findings_array value ≡ found items)

  -- No attempt at the candidate gives a value with a findings array.
  abbrev pub IsUseless : Text → Type 0
  IsUseless candidate =
      (value : Json)
      → attempt loads candidate ≡ some value
      → (problem : Problem) × (findings_array value ≡ missing problem)

  -- The first candidate that yields findings, behind useless ones.
  abbrev pub FirstYields : List Json → List Text → Type 0
  FirstYields items texts =
      (before : List Text) × (candidate : Text) × (after : List Text) × (texts
        ≡ before ++ candidate ∷ after)
      × All IsUseless before
      × Yields items candidate

  abbrev pub Explains : List Text → Found → Type 0
  Explains texts (found items) = FirstYields items texts
  Explains texts (missing problem) = All IsUseless texts

  Explains-cons :
      (candidate : Text) (rest : List Text) (r : Found)
      → IsUseless candidate
      → Explains rest r
      → Explains (candidate ∷ rest) r
  Explains-cons candidate rest (found items) u (before, chosen, after, e, all, y) =
      (candidate ∷ before, chosen, after, ap (λ t. candidate ∷ t) e, (u, all), y)
  Explains-cons candidate rest (missing problem) u h = (u, h)

  value-Explains :
      (candidate : Text) (rest : List Text) (value : Json) (array : Found) (later : Problem → Found)
      → attempt loads candidate ≡ some value
      → findings_array value ≡ array
      → ((problem : Problem) → Explains rest (later problem))
      → Explains
          (candidate ∷ rest)
          (elim array [ found items ↦ found items | missing problem ↦ later problem ])
  value-Explains candidate rest value (found items) later e f h =
      ([], candidate, rest, refl, tt, (value, e, f))
  value-Explains candidate rest value (missing problem) later e f h =
      Explains-cons candidate rest (later problem)
        (λ other g. (problem, ap findings_array (some_injective other value (sym g ∙ e)) ∙ f))
        (h problem)

  attempt-Explains :
      (fallback : Option Problem) (candidate : Text) (rest : List Text) (o : Option Json)
      → attempt loads candidate ≡ o
      → ((fallback : Option Problem) → Explains rest (first_found loads fallback rest))
      → Explains (candidate ∷ rest) (elim o [
        | none ↦ first_found loads fallback rest
        | some value ↦ elim (findings_array value) [
          | found items ↦ found items
          | missing problem ↦ first_found loads (some (or_problem fallback problem)) rest
        ]
      ])
  attempt-Explains fallback candidate rest none e ih =
      Explains-cons candidate rest (first_found loads fallback rest)
        (λ value g. absurd (none_differs value (sym e ∙ g))) (ih fallback)
  attempt-Explains fallback candidate rest (some value) e ih =
      value-Explains candidate rest value (findings_array value)
        (λ problem. first_found loads (some (or_problem fallback problem)) rest) e refl
        (λ problem. ih (some (or_problem fallback problem)))

  first_found-Explains :
      (fallback : Option Problem) (texts : List Text)
      → Explains texts (first_found loads fallback texts)
  unfolding first_found
  first_found-Explains fallback [] = tt
  first_found-Explains fallback (candidate ∷ rest) =
      attempt-Explains fallback candidate rest (attempt loads candidate) refl
        (λ later. first_found-Explains later rest)

module _ (loads : Text → Option Json) (fenced : Text → List Text) (unopened : Text → Text) where
  -- The findings of a response that is not blank are those of its first candidate that, as it is
  -- or without trailing commas, reads as a value with a findings array; where there are none, no
  -- candidate reads as such a value.
  pub payload-Explains :
      (text : Text)
      → is_empty (strip text) ≡ false
      → Explains loads (candidates fenced unopened text) (payload loads fenced unopened text)
  unfolding payload
  payload-Explains text h = rw h (first_found-Explains loads none (candidates fenced unopened text))
