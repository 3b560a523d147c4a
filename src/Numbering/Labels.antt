-- ===== src/Numbering/Labels.antt =====
-- Lists of labels with different numbers.
use code_analyzer.Prelude.{
  ℕ, zero, suc, ◌≤◌, ◌≡◌, ◌≢◌, true, false, refl, sym, ap, ◌∙◌, Option, none, some, List, [], ◌∷◌,
  length, All, Pairs, arith,
}
use code_analyzer.Prelude.Text.{Text}
use code_analyzer.Numbering.{Label, set_at, has_text}
use code_analyzer.Numbering.Number.{ℤ, pos, negsuc}

-- The places do not hold the same number.
abbrev pub Differ : Option Label → Option Label → Type 0
Differ none m = Unit
Differ (some l) none = Unit
Differ (some l) (some m) = l.0 ≢ m.0

abbrev pub Taken : List Text → Option Label → Type 0
Taken taken none = Unit
Taken taken (some l) = has_text l.0 taken ≡ true

abbrev pub AtMost : ℕ → ℤ → Type 0
AtMost top (pos n) = n ≤ top
AtMost top (negsuc n) = Unit

pub Differ-sym : (l m : Option Label) → Differ l m → Differ m l
Differ-sym none none h = tt
Differ-sym none (some m) h = tt
Differ-sym (some l) none h = tt
Differ-sym (some l) (some m) h = λ e. h (sym e)

pub All-set_at :
    (P : Option Label → Type 0) (index : ℕ) (label : Label) (labels : List (Option Label))
    → P (some label)
    → All P labels
    → All P (set_at index label labels)
unfolding set_at
All-set_at P index label [] p h = tt
All-set_at P zero label (l ∷ labels) p h = (p, h.1)
All-set_at P (suc index) label (l ∷ labels) p h = (h.0, All-set_at P index label labels p h.1)

pub Pairs-set_at :
    (index : ℕ) (label : Label) (labels : List (Option Label))
    → All (Differ (some label)) labels
    → Pairs Differ labels
    → Pairs Differ (set_at index label labels)
unfolding set_at
Pairs-set_at index label [] h p = p
Pairs-set_at zero label (l ∷ labels) h p = (h.1, p.1)
Pairs-set_at (suc index) label (l ∷ labels) h p = (
  All-set_at (Differ l) index label labels (Differ-sym (some label) l h.0) p.0,
  Pairs-set_at index label labels h.1 p.1,
)

pub length-set_at :
    (index : ℕ) (label : Label) (labels : List (Option Label))
    → length (set_at index label labels) ≡ length labels
unfolding set_at
length-set_at index label [] = refl
length-set_at zero label (l ∷ labels) = refl
length-set_at (suc index) label (l ∷ labels) = omega (arith, length-set_at index label labels)

pub Taken-Differ :
    (taken : List Text) (label : Label)
    → has_text label.0 taken ≡ false
    → (l : Option Label) → Taken taken l
    → Differ (some label) l
Taken-Differ taken label h none t = tt
Taken-Differ taken label h (some l) t = λ e. absurd (go e)
  where
    go : label.0 ≡ l.0 → ⊥
    go e = let both : has_text label.0 taken ≡ true = ap (λ t. has_text t taken) e ∙ t in cc

pub Taken-more :
    (t : Text) (taken : List Text) (l : Option Label) → Taken taken l → Taken (t ∷ taken) l
unfolding has_text
Taken-more t taken none h = tt
Taken-more t taken (some l) h = ground (arith, h)
