-- ===== src/Schema/Extract/Spans.antt =====
-- `_spans` of code_analyzer/harness/schema.py: what is cut out of a response.
use code_analyzer.Prelude.{
  ℕ, zero, suc, ◌≡◌, refl, sym, ap, ◌∙◌, subst, Bool, true, false, Option, none, some, List, [],
  ◌∷◌, ◌++◌, if◌then◌else◌, take, drop, arith, All, inl, inr, Bool-cases,
}
use code_analyzer.Prelude.Text.{Text}
use code_analyzer.Schema.Extract.{
  Place, outside, inside, escaped, spans, span_at, matching, closer_of, scan_step, closes,
}
use mathlib.Core.Option
use mathlib.Core.Option

-- The texts stand in the text one behind the other, none inside another one.
abbrev pub StandIn : List Text → Text → Type 0
StandIn [] text = Unit
StandIn (span ∷ rest) text =
    (before : Text) × (after : Text) × (text ≡ before ++ span ++ after) × StandIn rest after

-- The text begins with an opener and ends with the closer that belongs to it.
abbrev pub IsBracketed : Text → Type 0
IsBracketed span =
    (opener : ℕ) × (closer : ℕ) × (middle : Text) × (closer_of opener ≡ some closer)
    × (span ≡ opener ∷ middle ++ closer ∷ [])

StandIn-cons :
    (c : ℕ) (rest : List Text) (text : Text) → StandIn rest text → StandIn rest (c ∷ text)
StandIn-cons c [] text h = tt
StandIn-cons c (span ∷ rest) text (before, after, e, h) = (c ∷ before, after, ap (λ t. c ∷ t) e, h)

StandIn-prepend :
    (front : Text) (rest : List Text) (text : Text)
    → StandIn rest text
    → StandIn rest (front ++ text)
StandIn-prepend [] rest text h = h
StandIn-prepend (c ∷ front) rest text h =
    StandIn-cons c rest (front ++ text) (StandIn-prepend front rest text h)

P-option {κ} :
    (P : List Text → Type κ) (o : Option ℕ) (a : List Text) (b : ℕ → List Text)
    → (o ≡ none → P a)
    → ((n : ℕ) → o ≡ some n → P (b n))
    → P (elim o [ none ↦ a | some n ↦ b n ])
P-option P none a b h k = h refl
P-option P (some n) a b h k = k n refl

take-drop : (n : ℕ) (t : Text) → t ≡ take n t ++ drop n t
take-drop zero t = refl
take-drop (suc n) [] = refl
take-drop (suc n) (c ∷ t) = ap (λ s. c ∷ s) (take-drop n t)

-- The pieces that `_spans` cuts out of a response stand in it in their order and do not overlap.
pub spans-StandIn : (skip : ℕ) (text : Text) → StandIn (spans skip text) (drop skip text)
unfolding spans
spans-StandIn zero [] = tt
spans-StandIn (suc skip) [] = tt
spans-StandIn (suc skip) (c ∷ s) = spans-StandIn skip s
spans-StandIn zero (c ∷ s) =
    P-option (λ pieces. StandIn pieces (c ∷ s)) (span_at (c ∷ s)) (spans 0 s)
      (λ n. take (suc n) (c ∷ s) ∷ spans n s)
      (λ _. StandIn-cons c (spans 0 s) s (spans-StandIn 0 s))
      (λ n _. ([], drop n s, ap (λ t. c ∷ t) (take-drop n s), spans-StandIn n s))

matching-suc :
    (closer : ℕ) (c : ℕ) (s : Text) (r : Option ℕ) (n : ℕ)
    → ((m : ℕ) → r ≡ some m → (middle : Text) × (take (suc m) s ≡ middle ++ closer ∷ []))
    → Option.map suc r ≡ some n
    → (middle : Text) × (take (suc n) (c ∷ s) ≡ middle ++ closer ∷ [])
matching-suc closer c s none n ih e = absurd (cc)
matching-suc closer c s (some m) n ih e =
    let (middle, q) = ih m refl in
    (
      c ∷ middle,
      subst (λ k. take (suc k) (c ∷ s) ≡ c ∷ middle ++ closer ∷ []) (the_same m n e)
          (ap (λ t. c ∷ t) q),
    )
  where
    the_same : (m n : ℕ) → some (suc m) ≡ some n → suc m ≡ n
    the_same m n e = cc

if-true : {A : Type 0} (b : Bool) (x y : A) → b ≡ true → (if b then x else y) ≡ x
if-true b x y e = rw e refl

if-false : {A : Type 0} (b : Bool) (x y : A) → b ≡ false → (if b then x else y) ≡ y
if-false b x y e = rw e refl

at_closer :
    (closer c : ℕ) (s : Text) (n : ℕ)
    → c ≡ closer
    → some 0 ≡ some n
    → (middle : Text) × (take (suc n) (c ∷ s) ≡ middle ++ closer ∷ [])
at_closer closer c s zero h e = ([], ap (λ x. x ∷ []) h)
at_closer closer c s (suc n) h e = absurd (cc)

closes-closer :
    (opener closer depth : ℕ) (p : Place) (c : ℕ)
    → closes opener closer depth p c ≡ true
    → c ≡ closer
closes-closer opener closer depth outside c h = ground arith
closes-closer opener closer depth inside c h = absurd (cc)
closes-closer opener closer depth escaped c h = absurd (cc)

matching-closer :
    (opener closer depth : ℕ) (p : Place) (s : Text) (n : ℕ)
    → matching opener closer depth p s ≡ some n
    → (middle : Text) × (take (suc n) s ≡ middle ++ closer ∷ [])
unfolding matching
matching-closer opener closer depth p [] n e = absurd (cc)
matching-closer opener closer depth p (c ∷ s) n e =
    let next = scan_step opener closer depth p c in
    elim (Bool-cases (closes opener closer depth p c)) [
      | inr h ↦
          matching-suc closer c s (matching opener closer next.0 next.1 s) n
            (λ m q. matching-closer opener closer next.0 next.1 s m q) (sym (if-false _ _ _ h) ∙ e)
      | inl h ↦
          at_closer closer c s n (closes-closer opener closer depth p c h)
            (sym (if-true _ _ _ h) ∙ e)
    ]

closer_of-differs : (c closer : ℕ) → closer_of c ≡ some closer → c ≡ closer → ⊥
closer_of-differs c closer h e = ground arith

opened :
    (c closer : ℕ) (t middle : Text)
    → closer_of c ≡ some closer
    → c ∷ t ≡ middle ++ closer ∷ []
    → IsBracketed (c ∷ t)
opened c closer t [] h e = absurd (closer_of-differs c closer h (ground arith))
opened c closer t (m ∷ middle) h e = (c, closer, middle, h, ground arith)

span_at-IsBracketed :
    (c : ℕ) (s : Text) (n : ℕ) → span_at (c ∷ s) ≡ some n → IsBracketed (take (suc n) (c ∷ s))
unfolding span_at
span_at-IsBracketed c s n = go (closer_of c) refl
  where
    go :
        (o : Option ℕ)
        → closer_of c ≡ o
        → (elim o [ none ↦ none | some closer ↦ matching c closer 0 outside (c ∷ s) ]) ≡ some n
        → IsBracketed (take (suc n) (c ∷ s))
    go none h e = absurd (cc)
    go (some closer) h e =
        let (middle, q) = matching-closer c closer 0 outside (c ∷ s) n e in
        opened c closer (take n s) middle h q

-- A piece that is cut out begins with an opener and ends with the closer of that opener.
pub spans-IsBracketed : (skip : ℕ) (text : Text) → All IsBracketed (spans skip text)
unfolding spans
spans-IsBracketed zero [] = tt
spans-IsBracketed (suc skip) [] = tt
spans-IsBracketed (suc skip) (c ∷ s) = spans-IsBracketed skip s
spans-IsBracketed zero (c ∷ s) =
    P-option (All IsBracketed) (span_at (c ∷ s)) (spans 0 s) (λ n. take (suc n) (c ∷ s) ∷ spans n s)
      (λ _. spans-IsBracketed 0 s) (λ n e. (span_at-IsBracketed c s n e, spans-IsBracketed n s))
