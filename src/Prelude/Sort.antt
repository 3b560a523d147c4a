-- ===== src/Prelude/Sort.antt =====
-- Python's `sorted`: a stable sort, here by insertion.
use mathlib.Core.Path.{◌≡◌, refl}
use mathlib.Core.Bool.{Bool, true, false, ◌||◌}
use mathlib.Core.List.{List, [], ◌∷◌}
use mathlib.Core.Logic.{inl, inr}
use native.Mathlib.Omega.{arith}
use code_analyzer.Prelude.Tests.{if◌then◌else◌, Bool-cases}
use Prim.Native.Nat.{ℕ, ◌+◌}
use code_analyzer.Prelude.Lists.{All, All-map, Pairs, any, sum_by}

module _ {ℓ} {A : Type ℓ} (lt : A → A → Bool) where
  -- `x` stood before the elements of `ys`, so it stays in front of its equals.
  unfoldable pub insert_sorted : A → List A → List A
  insert_sorted x [] = x ∷ []
  insert_sorted x (y ∷ ys) =
      let rest = insert_sorted x ys in if lt y x then y ∷ rest else x ∷ y ∷ ys

  unfoldable pub sorted : List A → List A
  unfolding insert_sorted
  sorted [] = []
  sorted (x ∷ xs) = insert_sorted x (sorted xs)

  -- No element is below one in front of it.
  abbrev pub IsSorted : List A → Type 0
  IsSorted [] = Unit
  IsSorted (x ∷ xs) = All (λ y. lt y x ≡ false) xs × IsSorted xs

  pub All-insert_sorted {κ} :
      (P : A → Type κ) (x : A) (ys : List A) → P x → All P ys → All P (insert_sorted x ys)
  unfolding insert_sorted
  All-insert_sorted P x [] p h = (p, tt)
  All-insert_sorted P x (y ∷ ys) p h = elim (Bool-cases (lt y x)) [
    | inl e ↦ rw e (h.0, All-insert_sorted P x ys p h.1)
    | inr e ↦ rw e (p, h)
  ]

  pub All-sorted {κ} : (P : A → Type κ) (xs : List A) → All P xs → All P (sorted xs)
  unfolding sorted
  All-sorted P [] h = tt
  All-sorted P (x ∷ xs) h = All-insert_sorted P x (sorted xs) h.0 (All-sorted P xs h.1)

  insert_sorted_front :
      (x : A) (xs : List A) → All (λ y. lt y x ≡ false) xs → insert_sorted x xs ≡ x ∷ xs
  unfolding insert_sorted
  insert_sorted_front x [] h = refl
  insert_sorted_front x (y ∷ ys) h = rw h.0

  -- A list that is in order stays as it is.
  pub sorted_id : (xs : List A) → IsSorted xs → sorted xs ≡ xs
  unfolding sorted
  sorted_id [] h = refl
  sorted_id (x ∷ xs) h = rw (sorted_id xs h.1) (insert_sorted_front x xs h.0)

  Pairs-insert_sorted {κ} :
      (R : A → A → Type κ) (flip : (a b : A) → R a b → R b a) (x : A) (ys : List A)
      → All (R x) ys
      → Pairs R ys
      → Pairs R (insert_sorted x ys)
  unfolding insert_sorted
  Pairs-insert_sorted R flip x [] h p = (tt, tt)
  Pairs-insert_sorted R flip x (y ∷ ys) h p = elim (Bool-cases (lt y x)) [
    | inl e ↦
        rw e
          (All-insert_sorted (R y) x ys (flip x y h.0) p.0, Pairs-insert_sorted R flip x ys h.1 p.1)
    | inr e ↦ rw e (h, p)
  ]

  pub Pairs-sorted {κ} :
      (R : A → A → Type κ) (flip : (a b : A) → R a b → R b a) (xs : List A)
      → Pairs R xs
      → Pairs R (sorted xs)
  unfolding sorted
  Pairs-sorted R flip [] p = tt
  Pairs-sorted R flip (x ∷ xs) p =
      Pairs-insert_sorted R flip x (sorted xs) (All-sorted (R x) xs p.0)
        (Pairs-sorted R flip xs p.1)

  -- A test of some element does not see the order.
  any-insert_sorted :
      (p : A → Bool) (x : A) (ys : List A) → any p (insert_sorted x ys) ≡ p x || any p ys
  unfolding insert_sorted
  any-insert_sorted p x [] = refl
  any-insert_sorted p x (y ∷ ys) = ground (arith, any-insert_sorted p x ys)

  pub any-sorted : (p : A → Bool) (xs : List A) → any p (sorted xs) ≡ any p xs
  unfolding sorted
  any-sorted p [] = refl
  any-sorted p (x ∷ xs) = rw (any-insert_sorted p x (sorted xs), any-sorted p xs) refl

  insert_sorted-IsSorted :
      ((a b : A) → lt a b ≡ true → lt b a ≡ false)
      → ((a b c : A) → lt b a ≡ false → lt c b ≡ false → lt c a ≡ false)
      → (x : A) (ys : List A) → IsSorted ys
      → IsSorted (insert_sorted x ys)
  unfolding insert_sorted
  insert_sorted-IsSorted asym trans x [] h = (tt, tt)
  insert_sorted-IsSorted asym trans x (y ∷ ys) h = elim (Bool-cases (lt y x)) [
    | inl e ↦ rw e (
      All-insert_sorted (λ z. lt z y ≡ false) x ys (asym y x e) h.0,
      insert_sorted-IsSorted asym trans x ys h.1,
    )
    | inr e ↦ rw e (
      (e, All-map (λ z. lt z y ≡ false) (λ z. lt z x ≡ false) (λ z k. trans x y z e k) ys h.0),
      h,
    )
  ]

  pub sorted-IsSorted :
      ((a b : A) → lt a b ≡ true → lt b a ≡ false)
      → ((a b c : A) → lt b a ≡ false → lt c b ≡ false → lt c a ≡ false)
      → (xs : List A) → IsSorted (sorted xs)
  unfolding sorted
  sorted-IsSorted asym trans [] = tt
  sorted-IsSorted asym trans (x ∷ xs) =
      insert_sorted-IsSorted asym trans x (sorted xs) (sorted-IsSorted asym trans xs)

  -- A sum over the elements does not see the order.
  sum_by-insert_sorted :
      (f : A → ℕ) (x : A) (ys : List A) → sum_by f (insert_sorted x ys) ≡ f x + sum_by f ys
  unfolding insert_sorted
  sum_by-insert_sorted f x [] = refl
  sum_by-insert_sorted f x (y ∷ ys) = ground (arith, sum_by-insert_sorted f x ys)

  pub sum_by-sorted : (f : A → ℕ) (xs : List A) → sum_by f (sorted xs) ≡ sum_by f xs
  unfolding sorted
  sum_by-sorted f [] = refl
  sum_by-sorted f (x ∷ xs) = omega (arith, sum_by-insert_sorted f x (sorted xs), sum_by-sorted f xs)

  Pairs-insert_sorted_by {κ} :
      (R : A → A → Type κ) (trans : (a b c : A) → R a b → R b c → R a c)
      → ((a b : A) → lt a b ≡ true → R a b)
      → ((a b : A) → lt a b ≡ false → R b a)
      → (x : A) (ys : List A) → Pairs R ys
      → Pairs R (insert_sorted x ys)
  unfolding insert_sorted
  Pairs-insert_sorted_by R trans below above x [] p = (tt, tt)
  Pairs-insert_sorted_by R trans below above x (y ∷ ys) p = elim (Bool-cases (lt y x)) [
    | inl e ↦ rw e (
      All-insert_sorted (R y) x ys (below y x e) p.0,
      Pairs-insert_sorted_by R trans below above x ys p.1,
    )
    | inr e ↦
        let first = above y x e in
        rw e ((first, All-map (R y) (R x) (λ z r. trans x y z first r) ys p.0), p)
  ]

  -- A relation that the order decides holds between each element and those behind it.
  pub sorted-Pairs {κ} :
      (R : A → A → Type κ) (trans : (a b c : A) → R a b → R b c → R a c)
      → ((a b : A) → lt a b ≡ true → R a b)
      → ((a b : A) → lt a b ≡ false → R b a)
      → (xs : List A) → Pairs R (sorted xs)
  unfolding sorted
  sorted-Pairs R trans below above [] = tt
  sorted-Pairs R trans below above (x ∷ xs) =
      Pairs-insert_sorted_by R trans below above x (sorted xs) (sorted-Pairs R trans below above xs)
