-- ===== src/Schema/Extract/Repair.antt =====
-- `_drop_trailing_commas` of code_analyzer/harness/schema.py: what the repair leaves alone.
use code_analyzer.Prelude.{
  ℕ, ◌≡◌, refl, sym, ap, ◌∙◌, Bool, true, false, ◌||◌, [], ◌∷◌, foldl, ◌==◌, if◌then◌else◌, arith,
  inl, inr, Bool-cases,
}
use code_analyzer.Prelude.Text.{Text, is_space, lstrip}
use code_analyzer.Schema.Extract.{
  Place, outside, inside, escaped, in_string, drop_step, drop_trailing_commas, drop_comma,
}
use mathlib.Core.List.{reverse, reverse-cons, foldl-append}

-- A blank or a comma, which the repair may drop outside a string.
abbrev pub is_droppable : ℕ → Bool
is_droppable c = is_space c || c == b','

abbrev keep_step : Place × Text → ℕ → Place × Text
keep_step (outside, kept) c =
    if c == b'"'
    then (inside, c ∷ kept)
    else if is_droppable c
    then (outside, kept)
    else (outside, c ∷ kept)
keep_step (p, kept) c = (in_string p c, c ∷ kept)

-- A text without the blanks and commas that stand outside its strings, last character first.
abbrev pub kept_of : Text → Text
kept_of t = (foldl keep_step (outside, []) t).1

abbrev state_of : Text → Place × Text
state_of [] = (outside, [])
state_of (c ∷ out) = keep_step (state_of out) c

not_quote : (c : ℕ) → is_droppable c ≡ true → (c == b'"') ≡ false
not_quote c h = ground arith

keep_droppable :
    (st : Place × Text) (c : ℕ)
    → is_droppable c ≡ true
    → (keep_step st c).0 ≡ outside
    → keep_step st c ≡ st
keep_droppable (outside, kept) c h e = rw (not_quote c h, h) refl
keep_droppable (inside, kept) c h e = absurd (ground (arith, not_quote c h))
keep_droppable (escaped, kept) c h e = absurd (cc)

state_of-lstrip : (out : Text) → (state_of out).0 ≡ outside → state_of (lstrip out) ≡ state_of out
state_of-lstrip [] h = refl
state_of-lstrip (c ∷ out) h = elim (Bool-cases (is_space c)) [
  | inr e ↦ rw e refl
  | inl e ↦
      let q : keep_step (state_of out) c ≡ state_of out =
        keep_droppable (state_of out) c (ground arith) h in
      rw e (state_of-lstrip out (ap (λ st. st.0) (sym q) ∙ h) ∙ sym q)
]

state_of-drop_comma :
    (out : Text) → (state_of out).0 ≡ outside → state_of (drop_comma out) ≡ state_of out
state_of-drop_comma [] h = refl
state_of-drop_comma (c ∷ out) h = elim (Bool-cases (c == b',')) [
  | inr e ↦ rw e refl
  | inl e ↦ rw e (sym (keep_droppable (state_of out) c (ground arith) h))
]

state_of-tail :
    (out : Text) → (state_of out).0 ≡ outside → state_of (drop_comma (lstrip out)) ≡ state_of out
state_of-tail out h =
    state_of-drop_comma (lstrip out) (ap (λ st. st.0) (state_of-lstrip out h) ∙ h)
    ∙ state_of-lstrip out h

module _ (c : ℕ) where
  quote-keep_step :
      (st : Place × Text) → outside ≡ st.0 → (c == b'"') ≡ true → inside ≡ (keep_step st c).0
  quote-keep_step (outside, kept) h e = rw e refl
  quote-keep_step (inside, kept) h e = absurd (cc)
  quote-keep_step (escaped, kept) h e = absurd (cc)

  outside-keep_step :
      (st : Place × Text) → outside ≡ st.0 → (c == b'"') ≡ false → outside ≡ (keep_step st c).0
  outside-keep_step (outside, kept) h e = elim (Bool-cases (is_droppable c)) [
    | inl d ↦ rw (e, d) refl
    | inr d ↦ rw (e, d) refl
  ]
  outside-keep_step (inside, kept) h e = absurd (cc)
  outside-keep_step (escaped, kept) h e = absurd (cc)

  inside-keep_step : (st : Place × Text) → inside ≡ st.0 → in_string inside c ≡ (keep_step st c).0
  inside-keep_step (outside, kept) h = absurd (cc)
  inside-keep_step (inside, kept) h = refl
  inside-keep_step (escaped, kept) h = absurd (cc)

  escaped-keep_step : (st : Place × Text) → escaped ≡ st.0 → inside ≡ (keep_step st c).0
  escaped-keep_step (outside, kept) h = absurd (cc)
  escaped-keep_step (inside, kept) h = absurd (cc)
  escaped-keep_step (escaped, kept) h = refl

-- The scan of the output is where the scan of the input stands.
drop_step-state_of :
    (out : Text) (p : Place) (c : ℕ)
    → p ≡ (state_of out).0
    → (state_of (drop_step (out, p) c).0 ≡ keep_step (state_of out) c)
      × ((drop_step (out, p) c).1 ≡ (keep_step (state_of out) c).0)
drop_step-state_of out outside c h = elim (Bool-cases (c == b'"')) [
  | inl e ↦ rw e (refl, quote-keep_step c (state_of out) h e)
  | inr e ↦ rw e elim (Bool-cases (c == b'}' || c == b']')) [
    | inr f ↦ rw f (refl, outside-keep_step c (state_of out) h e)
    | inl f ↦ rw f (
      ap (λ st. keep_step st c) (state_of-tail out (sym h)),
      outside-keep_step c (state_of out) h e,
    )
  ]
]
drop_step-state_of out inside c h = (refl, inside-keep_step c (state_of out) h)
drop_step-state_of out escaped c h = (refl, escaped-keep_step c (state_of out) h)

foldl-drop_step :
    (t out : Text) (p : Place)
    → p ≡ (state_of out).0
    → state_of (foldl drop_step (out, p) t).0 ≡ foldl keep_step (state_of out) t
foldl-drop_step [] out p h = refl
foldl-drop_step (c ∷ t) out p h =
    let (same, place) = drop_step-state_of out p c h in
    foldl-drop_step t (drop_step (out, p) c).0 (drop_step (out, p) c).1
      (place ∙ ap (λ st. st.0) (sym same))
    ∙ ap (λ st. foldl keep_step st t) same

foldl-reverse : (out : Text) → foldl keep_step (outside, []) (reverse out) ≡ state_of out
foldl-reverse [] = refl
foldl-reverse (c ∷ out) =
    ap (foldl keep_step (outside, [])) (reverse-cons c out)
    ∙ foldl-append keep_step (outside, []) (reverse out) (c ∷ [])
    ∙ ap (λ st. keep_step st c) (foldl-reverse out)

-- The removal of trailing commas changes no string and drops nothing but blanks and commas outside
-- strings: without those, the repaired text is the text.
pub kept_of-drop_trailing_commas : (t : Text) → kept_of (drop_trailing_commas t) ≡ kept_of t
unfolding drop_trailing_commas
kept_of-drop_trailing_commas t =
    ap (λ st. st.1)
      (foldl-reverse (foldl drop_step ([], outside) t).0 ∙ foldl-drop_step t [] outside refl)
