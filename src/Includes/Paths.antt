-- ===== src/Includes/Paths.antt =====
-- Cutting paths at slashes and putting them together again.
use code_analyzer.Prelude.{
  ℕ, ◌≡◌, true, refl, ap, ◌∙◌, inl, inr, List, [], ◌∷◌, ◌++◌, ◌==◌, any, Bool-cases, arith,
}
use code_analyzer.Prelude.Text.{Text, text_eq, text_eq_refl}
use mathlib.Core.Path.{ap₂}
use code_analyzer.Includes.{split_parts, split_slash, join_slash, tails_of}

join_slash-cons :
    (c : ℕ) (first : Text) (rest : List Text)
    → join_slash ((c ∷ first) ∷ rest) ≡ c ∷ join_slash (first ∷ rest)
unfolding join_slash
join_slash-cons c first [] = refl
join_slash-cons c first (p ∷ rest) = refl

join_slash-behind :
    (first : Text) (rest : List Text)
    → join_slash ([] ∷ first ∷ rest) ≡ 47 ∷ join_slash (first ∷ rest)
unfolding join_slash
join_slash-behind first rest = refl

-- Joining the parts of a path gives the path.
pub join_slash-split_slash : (s : Text) → join_slash (split_slash s) ≡ s
unfolding split_slash split_parts join_slash
join_slash-split_slash [] = refl
join_slash-split_slash (c ∷ s) = elim (Bool-cases (c == 47)) [
  | inl e ↦
      let slash : 47 ≡ c = ground (arith, e) in
      rw e (
        join_slash-behind (split_parts s).0 (split_parts s).1
        ∙ ap₂ (λ a t. a ∷ t) slash (join_slash-split_slash s))
  | inr e ↦ rw e (
      join_slash-cons c (split_parts s).0 (split_parts s).1
      ∙ ap (λ t. c ∷ t) (join_slash-split_slash s))
]

split_parts-slash :
    (d s : Text)
    → split_parts (d ++ 47 ∷ s) ≡ ((split_parts d).0, (split_parts d).1 ++ split_slash s)
unfolding split_slash split_parts
split_parts-slash [] s = refl
split_parts-slash (c ∷ d) s = elim (Bool-cases (c == 47)) [
  | inl e ↦ rw (e, split_parts-slash d s) refl
  | inr e ↦ rw (e, split_parts-slash d s) refl
]

-- The parts of a path below a directory are those of the directory and then its own.
split_slash-slash : (d s : Text) → split_slash (d ++ 47 ∷ s) ≡ split_slash d ++ split_slash s
unfolding split_slash
split_slash-slash d s = rw (split_parts-slash d s) refl

tails_of-append :
    (t : Text) (front back : List Text)
    → any (text_eq t) (tails_of back) ≡ true
    → any (text_eq t) (tails_of (front ++ back)) ≡ true
unfolding tails_of
tails_of-append t [] back h = h
tails_of-append t (p ∷ front) back h = ground (arith, tails_of-append t front back h)

pub tails_of-split_slash : (s : Text) → any (text_eq s) (tails_of (split_slash s)) ≡ true
unfolding tails_of split_slash
tails_of-split_slash s = ground (arith, join_slash-split_slash s, text_eq_refl s)

-- Whatever stands behind a slash of a path is one of its tails.
pub tails_of-slash : (d s : Text) → any (text_eq s) (tails_of (split_slash (d ++ 47 ∷ s))) ≡ true
tails_of-slash d s =
    rw (split_slash-slash d s)
      (tails_of-append s (split_slash d) (split_slash s) (tails_of-split_slash s))
