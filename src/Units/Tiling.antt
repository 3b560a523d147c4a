-- ===== src/Units/Tiling.antt =====
-- Lists of spans that cover a range without gap or overlap.
use code_analyzer.Prelude.{sym, subst, ℕ, ◌<◌, ◌≡◌, List, [], ◌∷◌, ◌++◌}

-- The spans start at `lo`, each is non-empty and starts where the one before it ends, and the last
-- ends at `hi`.
abbrev pub Tiles : ℕ → ℕ → List (ℕ × ℕ) → Type 0
Tiles lo hi [] = lo ≡ hi
Tiles lo hi ((start, end) ∷ rest) = (start ≡ lo) × (start < end) × Tiles end hi rest

pub Tiles-append :
    (lo mid hi : ℕ) (xs ys : List (ℕ × ℕ))
    → Tiles lo mid xs
    → Tiles mid hi ys
    → Tiles lo hi (xs ++ ys)
Tiles-append lo mid hi [] ys h k = subst (λ n. Tiles n hi ys) (sym h) k
Tiles-append lo mid hi ((start, end) ∷ xs) ys h k = (h.0, h.1, Tiles-append end mid hi xs ys h.2 k)
