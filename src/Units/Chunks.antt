-- ===== src/Units/Chunks.antt =====
-- `_chunks` cuts a long span into pieces that tile it, at line breaks.
use code_analyzer.Prelude.{
  ℕ, zero, suc, ◌+◌, ◌-◌, ◌≤◌, ◌<◌, ◌≡◌, ◌≢◌, refl, sym, false, ◌||◌, none, some, List, [], ◌∷◌,
  ltb, leb, length, arith, ◌⊎◌, inl, inr, Bool-cases, ◌∙◌, ap, Option-cases, get_elem?, take, drop,
}
use code_analyzer.Prelude.Text.{Text}
use code_analyzer.Units.{
  Kind, slice, rfind_newline, split_at, max_unit_bytes, split_of, chunk_loop, chunks, is_function,
}
use code_analyzer.Units.Tiling.{Tiles}

module _ {ℓ} {A : Type ℓ} where
  length-take-le : (n : ℕ) (xs : List A) → length (take n xs) ≤ n
  length-take-le zero xs = omega arith
  length-take-le (suc n) [] = omega arith
  length-take-le (suc n) (x ∷ xs) = omega (arith, length-take-le n xs)

  get_elem?-take : (n i : ℕ) (xs : List A) → i < n → get_elem? (take n xs) i ≡ get_elem? xs i
  get_elem?-take zero i xs h = absurd (omega arith)
  get_elem?-take (suc n) i [] h = refl
  get_elem?-take (suc n) zero (x ∷ xs) h = refl
  get_elem?-take (suc n) (suc i) (x ∷ xs) h = get_elem?-take n i xs (omega arith)

  get_elem?-drop : (n i : ℕ) (xs : List A) → get_elem? (drop n xs) i ≡ get_elem? xs (n + i)
  get_elem?-drop zero i xs = ap (get_elem? xs) (omega arith)
  get_elem?-drop (suc n) i [] = refl
  get_elem?-drop (suc n) i (x ∷ xs) =
      let e : suc (n + i) ≡ suc n + i = omega arith in
      get_elem?-drop n i xs ∙ ap (get_elem? (x ∷ xs)) e

rfind_newline_lem :
    (s : Text) (i : ℕ) → rfind_newline s ≡ some i → (i < length s) × (get_elem? s i ≡ some 10)
unfolding rfind_newline
rfind_newline_lem [] i h = absurd (cc)
rfind_newline_lem (c ∷ s) zero h = (omega arith, ground arith)
rfind_newline_lem (c ∷ s) (suc i) h =
    let (lt, at) = rfind_newline_lem s i (ground arith) in (omega arith, at)

rfind_newline-none : (s : Text) (i : ℕ) → rfind_newline s ≡ none → get_elem? s i ≢ some 10
unfolding rfind_newline
rfind_newline-none [] i h = λ e. cc
rfind_newline-none (c ∷ s) zero h = λ e. ground (arith, h, e)
rfind_newline-none (c ∷ s) (suc i) h = rfind_newline-none s i (ground (arith, h))

rfind_newline-last :
    (s : Text) (j i : ℕ) → rfind_newline s ≡ some j → j < i → get_elem? s i ≢ some 10
unfolding rfind_newline
rfind_newline-last [] j i h lt = absurd (cc)
rfind_newline-last (c ∷ s) j zero h lt = absurd (omega arith)
rfind_newline-last (c ∷ s) zero (suc i) h lt = rfind_newline-none s i (ground (arith, h))
rfind_newline-last (c ∷ s) (suc j) (suc i) h lt =
    rfind_newline-last s j i (ground (arith, h)) (omega arith)

-- No line break stands from `first` on in front of `end`.
abbrev pub Unbroken : Text → ℕ → ℕ → Type 0
Unbroken raw first end = (i : ℕ) → first ≤ i → i < end → get_elem? raw i ≢ some 10

-- A chunk that starts at `cursor` ends at `split`: behind the last line break in reach of the
-- bound, and at the bound where there is none but, maybe, the chunk's first character.
abbrev pub CutsAt : Text → ℕ → ℕ → Type 0
CutsAt raw cursor split =
    (cursor < split)
    × (split ≤ cursor + max_unit_bytes)
    × (((get_elem? raw (split - 1) ≡ some 10) × Unbroken raw split (cursor + max_unit_bytes))
        ⊎ ((split ≡ cursor + max_unit_bytes) × Unbroken raw (suc cursor) (cursor + max_unit_bytes)))

-- The window that `rfind` looks through.
abbrev window_of : Text → ℕ → Text
window_of raw cursor = slice raw cursor (cursor + max_unit_bytes)

get_elem?-window :
    (raw : Text) (cursor i : ℕ)
    → i < max_unit_bytes
    → get_elem? (window_of raw cursor) i ≡ get_elem? raw (cursor + i)
get_elem?-window raw cursor i h =
    get_elem?-take (cursor + max_unit_bytes - cursor) i (drop cursor raw) (omega arith)
    ∙ get_elem?-drop cursor i raw

-- What holds of the window's characters behind one of them holds of the text's.
window-Unbroken :
    (raw : Text) (cursor n : ℕ)
    → ((i : ℕ) → n ≤ i → get_elem? (window_of raw cursor) i ≢ some 10)
    → Unbroken raw (cursor + n) (cursor + max_unit_bytes)
window-Unbroken raw cursor n h i le lt e =
    let same : cursor + (i - cursor) ≡ i = omega arith in
    h (i - cursor) (omega arith)
      (get_elem?-window raw cursor (i - cursor) (omega arith) ∙ ap (get_elem? raw) same ∙ e)

none-CutsAt :
    (raw : Text) (cursor : ℕ)
    → rfind_newline (window_of raw cursor) ≡ none
    → CutsAt raw cursor (split_of cursor none)
unfolding split_of
none-CutsAt raw cursor e = (
  omega arith,
  omega arith,
  inr (
    refl,
    λ i le lt.
        window-Unbroken raw cursor 1 (λ k _. rfind_newline-none (window_of raw cursor) k e) i
          (omega arith) lt,
  ),
)

found-CutsAt :
    (raw : Text) (cursor j : ℕ)
    → rfind_newline (window_of raw cursor) ≡ some j
    → CutsAt raw cursor (split_of cursor (some j))
unfolding split_of
found-CutsAt raw cursor zero e = (
  omega arith,
  omega arith,
  inr (
    refl,
    λ i le lt.
        window-Unbroken raw cursor 1
          (λ k h. rfind_newline-last (window_of raw cursor) zero k e (omega arith)) i (omega arith)
          lt,
  ),
)
found-CutsAt raw cursor (suc j) e =
    let (lt, at) = rfind_newline_lem _ (suc j) e in
    let short = length-take-le (cursor + max_unit_bytes - cursor) (drop cursor raw) in
    let near : suc j < max_unit_bytes = omega (arith, lt, short) in
    let e' : split_of cursor (some (suc j)) - 1 ≡ cursor + suc j = ground arith in
    (
      ground arith,
      ground arith,
      inl (
        ap (get_elem? raw) e' ∙ sym (get_elem?-window raw cursor (suc j) near) ∙ at,
        λ i le lt.
            window-Unbroken raw cursor (suc (suc j))
              (λ k h. rfind_newline-last (window_of raw cursor) (suc j) k e (omega arith)) i
              (ground (arith, le)) lt,
      ),
    )

split_at-CutsAt : (raw : Text) (cursor : ℕ) → CutsAt raw cursor (split_at raw cursor)
unfolding split_at
split_at-CutsAt raw cursor = elim (Option-cases (rfind_newline (window_of raw cursor))) [
  | inl e ↦ rw e (none-CutsAt raw cursor e)
  | inr (i, e) ↦ rw e (found-CutsAt raw cursor i e)
]

chunk_loop-Tiles :
    (fuel : ℕ) (raw : Text) (cursor end : ℕ)
    → cursor < end
    → Tiles cursor end (chunk_loop fuel raw cursor end)
unfolding chunk_loop
chunk_loop-Tiles zero raw cursor end h = (refl, h, refl)
chunk_loop-Tiles (suc fuel) raw cursor end h =
    elim (Bool-cases (ltb max_unit_bytes (end - cursor))) [
      | inl e ↦
          let cut = split_at-CutsAt raw cursor in
          rw e (refl, cut.0, chunk_loop-Tiles fuel raw (split_at raw cursor) end (ground arith))
      | inr e ↦ rw e (refl, h, refl)
    ]

-- Every chunk but the last ends as `CutsAt` says, and the last is not longer than the bound.
abbrev pub AreCut : Text → List (ℕ × ℕ) → Type 0
AreCut raw [] = Unit
AreCut raw ((start, end) ∷ []) = end ≤ start + max_unit_bytes
AreCut raw ((start, end) ∷ next ∷ rest) = CutsAt raw start end × AreCut raw (next ∷ rest)

AreCut-cons :
    (raw : Text) (start end lo hi : ℕ) (rest : List (ℕ × ℕ))
    → CutsAt raw start end
    → lo < hi
    → Tiles lo hi rest
    → AreCut raw rest
    → AreCut raw ((start, end) ∷ rest)
AreCut-cons raw start end lo hi [] c h t a = absurd (omega arith)
AreCut-cons raw start end lo hi (next ∷ rest) c h t a = (c, a)

-- The fuel that `_chunks` has is enough for the loop to end by its own test.
chunk_loop-AreCut :
    (fuel : ℕ) (raw : Text) (cursor end : ℕ)
    → cursor < end
    → end - cursor ≤ fuel
    → AreCut raw (chunk_loop fuel raw cursor end)
unfolding chunk_loop
chunk_loop-AreCut zero raw cursor end h f = absurd (omega arith)
chunk_loop-AreCut (suc fuel) raw cursor end h f =
    elim (Bool-cases (ltb max_unit_bytes (end - cursor))) [
      | inl e ↦
          let cut = split_at-CutsAt raw cursor in
          let lt : split_at raw cursor < end = ground arith in
          rw e (
            AreCut-cons raw cursor (split_at raw cursor) (split_at raw cursor) end _ cut lt
              (chunk_loop-Tiles fuel raw (split_at raw cursor) end lt)
              (chunk_loop-AreCut fuel raw (split_at raw cursor) end lt (omega arith)))
      | inr e ↦ rw e (ground arith)
    ]

-- The chunks of a span cover it, in order, each non-empty and each starting where the one before
-- it ends.
pub chunks-Tiles :
    (raw : Text) (start end : ℕ) (kind : Kind)
    → start < end
    → Tiles start end (chunks raw start end kind)
unfolding chunks
chunks-Tiles raw start end kind h =
    elim (Bool-cases (is_function kind || leb (end - start) max_unit_bytes)) [
      | inl e ↦ rw e (refl, h, refl)
      | inr e ↦ rw e (chunk_loop-Tiles (end - start) raw start end h)
    ]

-- The chunks of a span that is no function are at most `max_unit_bytes` long, and each but the
-- last ends behind the last line break that a chunk of that length can hold, or has exactly that
-- length where no line break stands there behind its first character.
pub chunks-AreCut :
    (raw : Text) (start end : ℕ) (kind : Kind)
    → start < end
    → is_function kind ≡ false
    → AreCut raw (chunks raw start end kind)
unfolding chunks
chunks-AreCut raw start end kind h k =
    elim (Bool-cases (is_function kind || leb (end - start) max_unit_bytes)) [
      | inl e ↦ rw e (ground arith)
      | inr e ↦ rw e (chunk_loop-AreCut (end - start) raw start end h (omega arith))
    ]
