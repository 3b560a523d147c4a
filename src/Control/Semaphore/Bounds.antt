-- ===== src/Control/Semaphore/Bounds.antt =====
-- How many workers the gate lets in.
use code_analyzer.Prelude.{
  ℕ, zero, suc, ◌≤◌, ◌≡◌, refl, Bool, List, [], ◌∷◌, max, leb, arith, foldl, Bool-cases, inl, inr,
}
use code_analyzer.Control.Semaphore.{
  Gate, make, acquire_once, release, set_limit, Call, enter, leave, resize, Site, let_in, let_out,
  apply, open_site,
}

-- The largest limit that a run has set, from `peak` on.
abbrev pub highest : ℕ → List Call → ℕ
highest peak [] = peak
highest peak (resize n ∷ calls) = highest (max peak (max 1 n)) calls
highest peak (_ ∷ calls) = highest peak calls

highest-ge : (peak : ℕ) (calls : List Call) → peak ≤ highest peak calls
highest-ge peak [] = omega arith
highest-ge peak (enter c ∷ calls) = highest-ge peak calls
highest-ge peak (leave ∷ calls) = highest-ge peak calls
highest-ge peak (resize n ∷ calls) = omega (arith, highest-ge (max peak (max 1 n)) calls)

-- The gate counts the workers that are in.
abbrev Counts : Site → Type 0
Counts s = s.gate.active ≡ s.inside

let_out-Counts :
    (n : ℕ) (g : Gate) → g.active ≡ n → ((let_out n g).gate.limit ≡ g.limit) × Counts (let_out n g)
unfolding release
let_out-Counts zero g h = (refl, h)
let_out-Counts (suc n) g h = (refl, omega arith)

let_in-Counts :
    (cancelled : Bool) (s : Site) (peak : ℕ)
    → s.gate.limit ≤ peak
    → s.inside ≤ peak
    → Counts s
    → let t = let_in s.inside (acquire_once cancelled s.gate) in
      (t.gate.limit ≤ peak) × (t.inside ≤ peak) × Counts t
unfolding acquire_once
let_in-Counts cancelled s peak h k c = elim (Bool-cases (leb s.gate.limit s.gate.active)) [
  | inr e ↦ rw e (h, ground arith, omega (arith, c))
  | inl e ↦ elim (Bool-cases cancelled) [
    | inl f ↦ rw (e, f) (h, k, c)
    | inr f ↦ rw (e, f) (h, k, c)
  ]
]

let_out-le : (n : ℕ) (g : Gate) → (let_out n g).inside ≤ n
let_out-le zero g = omega arith
let_out-le (suc n) g = omega arith

apply-within :
    (s : Site) (peak : ℕ) (calls : List Call)
    → s.gate.limit ≤ peak
    → s.inside ≤ peak
    → Counts s
    → (foldl apply s calls).inside ≤ highest peak calls
unfolding apply set_limit
apply-within s peak [] h k c = k
apply-within s peak (enter b ∷ calls) h k c =
    let (i, j, d) = let_in-Counts b s peak h k c in
    apply-within (apply s (enter b)) peak calls i j d
apply-within s peak (leave ∷ calls) h k c =
    let (i, d) = let_out-Counts s.inside s.gate c in
    let j = let_out-le s.inside s.gate in
    apply-within (apply s leave) peak calls (omega (arith, h, i)) (omega (arith, k, j)) d
apply-within s peak (resize n ∷ calls) h k c =
    apply-within (apply s (resize n)) (max peak (max 1 n)) calls (omega arith) (omega (arith, k)) c

-- Whatever the threads do, at no time are more workers in than the largest limit set so far: in are
-- those that `acquire` has let in and that have not called `release` since.
pub inside-le-highest :
    (limit : ℕ) (calls : List Call)
    → (foldl apply (open_site limit) calls).inside ≤ highest (max 1 limit) calls
unfolding open_site make
inside-le-highest limit calls =
    apply-within (open_site limit) (max 1 limit) calls (omega arith) (omega arith) refl
