-- ===== src/Prelude/Dict.antt =====
-- Python's dict with string keys as an association list: `d[k] = a`, `d.pop(k, None)`, `d.get(k)`.
use mathlib.Core.Path.{◌≡◌, refl, sym, subst}
use mathlib.Core.Logic.{inl, inr}
use mathlib.Core.List.{List, [], ◌∷◌}
use mathlib.Core.Option.{Option, none, some}
use native.Mathlib.Omega.{arith}
use code_analyzer.Prelude.Tests.{if◌then◌else◌, Bool-cases}
use code_analyzer.Prelude.Lists.{All}
use code_analyzer.Prelude.Text.{Text, text_eq, text_eq→eq, text_eq_refl}

module _ {ℓ} {A : Type ℓ} where
  unfoldable pub without : Text → List (Text × A) → List (Text × A)
  without k [] = []
  without k ((j, a) ∷ rest) =
      let others = without k rest in if text_eq j k then others else (j, a) ∷ others

  unfoldable pub lookup : Text → List (Text × A) → Option A
  lookup k [] = none
  lookup k ((j, a) ∷ rest) = if text_eq j k then some a else lookup k rest

  unfoldable pub insert : Text → A → List (Text × A) → List (Text × A)
  insert k a [] = (k, a) ∷ []
  insert k a ((j, b) ∷ rest) = if text_eq j k then (j, a) ∷ rest else (j, b) ∷ insert k a rest

module _ {ℓ κ} {A : Type ℓ} (P : Text × A → Type κ) where
  pub All-insert :
      (k : Text) (a : A) (entries : List (Text × A))
      → P (k, a)
      → All P entries
      → All P (insert k a entries)
  unfolding insert
  All-insert k a [] p h = (p, tt)
  All-insert k a ((j, b) ∷ entries) p h = elim (Bool-cases (text_eq j k)) [
    | inl e ↦ rw e (subst (λ x. P (x, a)) (sym (text_eq→eq j k e)) p, h.1)
    | inr e ↦ rw e (h.0, All-insert k a entries p h.1)
  ]

  pub All-without :
      (k : Text) (entries : List (Text × A)) → All P entries → All P (without k entries)
  unfolding without
  All-without k [] h = tt
  All-without k ((j, b) ∷ entries) h = elim (Bool-cases (text_eq j k)) [
    | inl e ↦ rw e (All-without k entries h.1)
    | inr e ↦ rw e (h.0, All-without k entries h.1)
  ]

  pub All-lookup :
      (k : Text) (a : A) (entries : List (Text × A))
      → All P entries
      → lookup k entries ≡ some a
      → P (k, a)
  unfolding lookup
  All-lookup k a [] h e' = absurd (cc)
  All-lookup k a ((j, b) ∷ entries) h e' = elim (Bool-cases (text_eq j k)) [
    | inl t ↦ let q : b ≡ a = ground arith in subst P (λ i. (text_eq→eq j k t i, q i)) h.0
    | inr t ↦ All-lookup k a entries h.1 (ground arith)
  ]

module _ {ℓ} {A : Type ℓ} where
  pub lookup-insert :
      (k j : Text) (a : A) (entries : List (Text × A))
      → lookup j (insert k a entries) ≡ (if text_eq k j then some a else lookup j entries)
  unfolding lookup insert
  lookup-insert k j a [] = refl
  lookup-insert k j a ((i, b) ∷ entries) = ground (
    arith,
    text_eq→eq i k,
    text_eq→eq i j,
    text_eq→eq k j,
    text_eq_refl i,
    lookup-insert k j a entries,
  )

  pub lookup-without :
      (k j : Text) (entries : List (Text × A))
      → lookup j (without k entries) ≡ (if text_eq k j then none else lookup j entries)
  unfolding lookup without
  lookup-without k j [] = ground arith
  lookup-without k j ((i, b) ∷ entries) = ground (
    arith,
    text_eq→eq i k,
    text_eq→eq i j,
    text_eq→eq k j,
    text_eq_refl i,
    lookup-without k j entries,
  )
