-- ===== src/Units/Functions.antt =====
-- What becomes of the functions that the parser found: `_segments` gives each one that is well
-- placed a segment of its own, and `_absorb_blank` keeps it.
use code_analyzer.Prelude.{
  ℕ, ◌≤◌, ◌<◌, ◌≡◌, refl, true, false, ◌||◌, Option, none, some, List, [], ◌∷◌, ◌++◌, foldl, ltb,
  leb, length, arith, inl, inr, Bool-cases, ◌∙◌, append-nil, append_assoc,
}
use code_analyzer.Prelude.Sort.{sorted}
use code_analyzer.Prelude.Text.{Text, is_empty}
use code_analyzer.Units.{
  Symbol, Segment, Absorbed, absorb, absorb_blank, finish_absorb, extend_last, is_blank,
  segments_of, module_scope_of, claimed_of, claim, claim_rest, limit_of, starts_before,
}

abbrev cons_symbol : Option Symbol → List Symbol → List Symbol
cons_symbol none fs = fs
cons_symbol (some f) fs = f ∷ fs

-- The functions that own a segment, in order.
abbrev pub symbols_of : List Segment → List Symbol
symbols_of [] = []
symbols_of (s ∷ segments) = cons_symbol s.symbol (symbols_of segments)

cons_symbol-append :
    (o : Option Symbol) (fs gs : List Symbol) → cons_symbol o (fs ++ gs) ≡ cons_symbol o fs ++ gs
cons_symbol-append none fs gs = refl
cons_symbol-append (some f) fs gs = refl

pub symbols_of-append :
    (xs ys : List Segment) → symbols_of (xs ++ ys) ≡ symbols_of xs ++ symbols_of ys
symbols_of-append [] ys = refl
symbols_of-append (x ∷ xs) ys = rw (symbols_of-append xs ys, cons_symbol-append)

symbols_of-extend_last : (e : ℕ) (xs : List Segment) → symbols_of (extend_last e xs) ≡ symbols_of xs
unfolding extend_last
symbols_of-extend_last e [] = refl
symbols_of-extend_last e (x ∷ []) = refl
symbols_of-extend_last e (x ∷ y ∷ xs) = rw (symbols_of-extend_last e (y ∷ xs))

blank_symbol : (raw : Text) (s : Segment) → is_blank raw s ≡ true → s.symbol ≡ none
unfolding is_blank
blank_symbol raw s h = ground arith

symbols_of-absorb :
    (raw : Text) (a : Absorbed) (s : Segment)
    → symbols_of (absorb raw a s).result ≡ symbols_of a.result ++ symbols_of (s ∷ [])
unfolding absorb
symbols_of-absorb raw a s = elim (Bool-cases (is_blank raw s)) [
  | inl b ↦ elim (Bool-cases (is_empty a.result)) [
    | inl e ↦ rw (b, e, blank_symbol raw s b, append-nil)
    | inr e ↦ rw (b, e, blank_symbol raw s b, append-nil, symbols_of-extend_last)
  ]
  | inr b ↦ rw (b, symbols_of-append)
]

symbols_of-foldl :
    (raw : Text) (a : Absorbed) (xs : List Segment)
    → symbols_of (foldl (absorb raw) a xs).result ≡ symbols_of a.result ++ symbols_of xs
symbols_of-foldl raw a [] = rw append-nil
symbols_of-foldl raw a (x ∷ xs) =
    symbols_of-foldl raw (absorb raw a x) xs
    ∙ rw (symbols_of-absorb, append_assoc, ← symbols_of-append (x ∷ []) xs)

symbols_of-finish :
    (size : ℕ) (a : Absorbed) → symbols_of (finish_absorb size a) ≡ symbols_of a.result
unfolding finish_absorb
symbols_of-finish size a = go a.pending
  where
    go :
        (o : Option ℕ)
        → symbols_of (elim o [
          | none ↦ a.result
          | some pending ↦ a.result ++ module_scope_of pending size ∷ []
        ])
          ≡ symbols_of a.result
    go none = refl
    go (some p) = rw (symbols_of-append, append-nil)

pub symbols_of-absorb_blank :
    (segments : List Segment) (raw : Text) (size : ℕ)
    → symbols_of (absorb_blank segments raw size) ≡ symbols_of segments
unfolding absorb_blank
symbols_of-absorb_blank segments raw size = rw (symbols_of-finish, symbols_of-foldl)

-- The extents stand one behind the other from `lo` on, each non-empty, and end by `limit`.
abbrev pub WellPlaced : ℕ → ℕ → List Symbol → Type 0
WellPlaced lo limit [] = Unit
WellPlaced lo limit (f ∷ fs) =
    (lo ≤ f.start_byte)
    × (f.start_byte < f.end_byte)
    × (f.end_byte ≤ limit)
    × WellPlaced f.end_byte limit fs

symbols_of-claim :
    (limit cursor : ℕ) (claimed : List Segment) (f : Symbol)
    → cursor ≤ f.start_byte
    → f.start_byte < f.end_byte
    → f.end_byte ≤ limit
    → (symbols_of (claim limit (claimed, cursor) f).0 ≡ symbols_of claimed ++ f ∷ [])
      × ((claim limit (claimed, cursor) f).1 ≡ f.end_byte)
unfolding claim
symbols_of-claim limit cursor claimed f h k l =
    let e : (ltb f.start_byte cursor || ltb limit f.end_byte || leb f.end_byte f.start_byte)
        ≡ false =
      ground arith in
    rw e (elim (Bool-cases (ltb cursor f.start_byte)) [
      | inl g ↦ rw (g, symbols_of-append, symbols_of-append, append-nil) (refl, refl)
      | inr g ↦ rw (g, symbols_of-append, symbols_of-append, append-nil) (refl, refl)
    ])

symbols_of-claim_loop :
    (limit : ℕ) (c : List Segment × ℕ) (fs : List Symbol)
    → WellPlaced c.1 limit fs
    → symbols_of (foldl (claim limit) c fs).0 ≡ symbols_of c.0 ++ fs
symbols_of-claim_loop limit c [] h = rw append-nil
symbols_of-claim_loop limit (claimed, cursor) (f ∷ fs) h =
    let (e, e') = symbols_of-claim limit cursor claimed f h.0 h.1 h.2 in
    symbols_of-claim_loop limit (claim limit (claimed, cursor) f) fs (rw e' h.3)
    ∙ rw (e, append_assoc)

symbols_of-claim_rest :
    (limit size : ℕ) (c : List Segment × ℕ) → symbols_of (claim_rest limit size c) ≡ symbols_of c.0
unfolding claim_rest
symbols_of-claim_rest limit size (claimed, cursor) = elim (Bool-cases (ltb cursor limit)) [
  | inl e ↦ elim (Bool-cases (ltb limit size)) [
    | inl e' ↦ rw (e, e', symbols_of-append, symbols_of-append, append-nil, append-nil)
    | inr e' ↦ rw (e, e', symbols_of-append, append-nil)
  ]
  | inr e ↦ elim (Bool-cases (ltb cursor size)) [
    | inl e' ↦ rw (e, e', symbols_of-append, append-nil)
    | inr e' ↦ rw (e, e')
  ]
]

-- When the extents that the parser reports do not overlap, are not empty and end by the parsed
-- part's end, every function has a segment of its own, in the order of the file.
pub symbols_of-segments_of :
    (functions : List Symbol) (unparsed : Option ℕ) (raw : Text)
    → WellPlaced 0 (limit_of unparsed (length raw)) (sorted starts_before functions)
    → symbols_of (segments_of functions unparsed raw) ≡ sorted starts_before functions
unfolding segments_of claimed_of
symbols_of-segments_of functions unparsed raw h =
    symbols_of-absorb_blank _ raw (length raw)
    ∙ symbols_of-claim_rest (limit_of unparsed (length raw)) (length raw) _
    ∙ symbols_of-claim_loop (limit_of unparsed (length raw)) ([], 0)
        (sorted starts_before functions) h
