-- ===== src/Mask/Source.antt =====
-- `_mask_source` ends, and hides characters without moving any.
use code_analyzer.Prelude.{
  ℕ, zero, suc, ◌+◌, ◌≤◌, ◌<◌, ◌≡◌, refl, inl, inr, subst, Option, none, some, List, [], ◌∷◌,
  length, get_elem?, Option-cases, arith,
}
use code_analyzer.Prelude.Text.{Text}
use code_analyzer.Plan.{line_starts}
use code_analyzer.Mask.{Masking, Problem, apply, move_at, mask_loop, masked, mask_source}
use code_analyzer.Mask.Blank.{Masks, Masks-refl, blank-Masks, length-Masks, line_starts-Masks}
use code_analyzer.Mask.Bounds.{move_at-forward}

get_elem?-none : (text : Text) (i : ℕ) → length text ≤ i → get_elem? text i ≡ none
get_elem?-none [] i h = refl
get_elem?-none (c ∷ text) zero h = absurd (omega arith)
get_elem?-none (c ∷ text) (suc i) h = get_elem?-none text i (omega arith)

get_elem?-some : (text : Text) (i c : ℕ) → get_elem? text i ≡ some c → i < length text
get_elem?-some [] i c h = absurd (cc)
get_elem?-some (d ∷ text) zero c h = omega arith
get_elem?-some (d ∷ text) (suc i) c h = omega (arith, get_elem?-some text i c h)

-- What the loop keeps of its variables.
abbrev KeepsText : Text → Option Masking → Type 0
KeepsText text none = ⊥
KeepsText text (some st) = Masks text st.chars

mask_loop-KeepsText :
    (text : Text) (fuel : ℕ) (st : Masking)
    → length text ≤ st.offset + fuel
    → Masks text st.chars
    → KeepsText text (mask_loop text fuel st)
unfolding mask_loop apply
mask_loop-KeepsText text zero st h k = rw (get_elem?-none text st.offset (omega arith), KeepsText) k
mask_loop-KeepsText text (suc fuel) st h k = elim (Option-cases (get_elem? text st.offset)) [
  | inl e ↦ rw (e, KeepsText) k
  | inr (c, e) ↦
      let v = move_at text st.offset c in
      rw (e, KeepsText)
        (mask_loop-KeepsText text fuel (apply st v)
          (omega (arith, move_at-forward text st.offset (get_elem?-some text st.offset c e) c))
          (blank-Masks v.begin v.stop text st.chars k))
]

masked-some :
    (text : Text) (o : Option Masking)
    → KeepsText text o
    → (chars : Text) × ((problems : List Problem) × ((masked o ≡ some (chars, problems))
          × Masks text chars))
unfolding masked
masked-some text none h = elim h [ ]
masked-some text (some st) h = (st.chars, (st.problems, (refl, h)))

-- `_mask_source` ends on every text: its loop returns within as many rounds as there are
-- characters, and what it returns differs from the text only where a character that is no line
-- break has become a space.
pub mask_source-Masks :
    (text : Text)
    → (chars : Text) × ((problems : List Problem) × ((mask_source text ≡ some (chars, problems))
          × Masks text chars))
unfolding mask_source
mask_source-Masks text =
    let start : Masking = record { chars = text; problems = []; offset = 0 } in
    masked-some text (mask_loop text (length text) start)
      (mask_loop-KeepsText text (length text) start (omega arith) (Masks-refl text))

some-Masks :
    (text chars : Text) (problems : List Problem)
    → mask_source text ≡ some (chars, problems)
    → Masks text chars
some-Masks text chars problems h =
    let (found, (_, (e, k))) = mask_source-Masks text in
    let same : found ≡ chars = cc in subst (Masks text) same k

-- Line numbers and offsets that are computed on the masked text are those of the file: it has as
-- many characters, and its lines start where the file's lines start.
pub line_starts-mask_source :
    (text chars : Text) (problems : List Problem)
    → mask_source text ≡ some (chars, problems)
    → (length chars ≡ length text) × (line_starts chars ≡ line_starts text)
line_starts-mask_source text chars problems h =
    let k = some-Masks text chars problems h in
    (length-Masks text chars k, line_starts-Masks text chars k)
