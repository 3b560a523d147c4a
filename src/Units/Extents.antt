-- ===== src/Units/Extents.antt =====
-- A function's segment holds the function's whole extent, also after blanks were folded into it.
use code_analyzer.Prelude.{
  ℕ, ◌≤◌, ◌<◌, ◌≡◌, refl, ◌||◌, Option, none, some, List, [], ◌∷◌, foldl, ltb, leb, length, arith,
  inl, inr, Bool-cases, All, All-append, foldl_inv, Option-cases,
}
use code_analyzer.Prelude.Sort.{sorted}
use code_analyzer.Prelude.Text.{Text, is_empty}
use code_analyzer.Units.{
  function, Symbol, Segment, Absorbed, absorb, absorb_blank, finish_absorb, extend_last, is_blank,
  segments_of, claimed_of, claim, claim_rest, limit_of, starts_before,
}
use code_analyzer.Units.Segments.{TilesBy, claimed_of-Tiles}
use code_analyzer.Units.Absorb.{AbsorbInv, tiled, waiting, absorb-Inv}

-- A segment with a function is of the kind `function` and reaches round the function's extent.
abbrev HoldsSymbol : Segment → Option Symbol → Type 0
HoldsSymbol s none = Unit
HoldsSymbol s (some f) = (s.kind ≡ function) × (s.start ≤ f.start_byte) × (f.end_byte ≤ s.end)

abbrev pub Holds : Segment → Type 0
Holds s = HoldsSymbol s s.symbol

Holds-widen :
    (s : Segment) (o : Option Symbol) (start end : ℕ)
    → start ≤ s.start
    → s.end ≤ end
    → HoldsSymbol s o
    → HoldsSymbol (record s { start = start; end = end }) o
Holds-widen s none start end h k t = tt
Holds-widen s (some f) start end h k t = (t.0, omega arith, omega arith)

claim-Holds :
    (limit : ℕ) (c : List Segment × ℕ) (f : Symbol) → All Holds c.0 → All Holds (claim limit c f).0
unfolding claim
claim-Holds limit (claimed, cursor) f h =
    elim (Bool-cases
      (ltb f.start_byte cursor || ltb limit f.end_byte || leb f.end_byte f.start_byte)) [
        | inl e ↦ rw e h
        | inr e ↦ elim (Bool-cases (ltb cursor f.start_byte)) [
          | inl g ↦
              rw (e, g)
                (All-append Holds _ _ (All-append Holds claimed _ h (tt, tt))
                  ((refl, omega arith, omega arith), tt))
          | inr g ↦
              rw (e, g)
                (All-append Holds _ _ (All-append Holds claimed _ h tt)
                  ((refl, omega arith, omega arith), tt))
        ]
      ]

claim_rest-Holds :
    (limit size : ℕ) (c : List Segment × ℕ) → All Holds c.0 → All Holds (claim_rest limit size c)
unfolding claim_rest
claim_rest-Holds limit size (claimed, cursor) h = elim (Bool-cases (ltb cursor limit)) [
  | inl e ↦ elim (Bool-cases (ltb limit size)) [
    | inl e' ↦ rw (e, e') (All-append Holds _ _ (All-append Holds claimed _ h (tt, tt)) (tt, tt))
    | inr e' ↦ rw (e, e') (All-append Holds claimed _ h (tt, tt))
  ]
  | inr e ↦ elim (Bool-cases (ltb cursor size)) [
    | inl e' ↦ rw (e, e') (All-append Holds claimed _ h (tt, tt))
    | inr e' ↦ rw (e, e') h
  ]
]

extend_last-Holds :
    (lo c e : ℕ) (xs : List Segment)
    → c ≤ e
    → TilesBy lo c xs
    → All Holds xs
    → All Holds (extend_last e xs)
unfolding extend_last
extend_last-Holds lo c e [] h t a = tt
extend_last-Holds lo c e (s ∷ []) h t a =
    (Holds-widen s s.symbol s.start e (omega arith) (omega arith) a.0, tt)
extend_last-Holds lo c e (s ∷ x ∷ xs) h t a = (a.0, extend_last-Holds s.end c e (x ∷ xs) h t.2 a.1)

absorb-Holds :
    (raw : Text) (c : ℕ) (a : Absorbed) (s : Segment)
    → s.start ≡ c
    → s.start < s.end
    → AbsorbInv c a
    → All Holds a.result
    → Holds s
    → All Holds (absorb raw a s).result
unfolding absorb
absorb-Holds raw c a s e h (tiled _ p t) all hs = elim (Bool-cases (is_blank raw s)) [
  | inl b ↦ elim (Bool-cases (is_empty a.result)) [
    | inl n ↦ rw (b, n) all
    | inr n ↦ rw (b, n) (extend_last-Holds 0 c s.end a.result (omega arith) t all)
  ]
  | inr b ↦ rw (b, p) (All-append Holds a.result _ all (hs, tt))
]
absorb-Holds raw c a s e h (waiting _ p r pos) all hs = elim (Bool-cases (is_blank raw s)) [
  | inl b ↦ rw (b, r) tt
  | inr b ↦
      rw (b, p)
        (All-append Holds a.result _ all
          (Holds-widen s s.symbol 0 s.end (omega arith) (omega arith) hs, tt))
]

absorb_loop-Holds :
    (raw : Text) (c hi : ℕ) (a : Absorbed) (xs : List Segment)
    → TilesBy c hi xs
    → AbsorbInv c a
    → All Holds a.result
    → All Holds xs
    → All Holds (foldl (absorb raw) a xs).result
absorb_loop-Holds raw c hi a [] t inv all hs = all
absorb_loop-Holds raw c hi a (s ∷ xs) t inv all hs =
    absorb_loop-Holds raw s.end hi (absorb raw a s) xs t.2
      (absorb-Inv raw c a.result a.pending s t.0 t.1 inv)
      (absorb-Holds raw c a s t.0 t.1 inv all hs.0) hs.1

finish_absorb-Holds :
    (size : ℕ) (a : Absorbed) → All Holds a.result → All Holds (finish_absorb size a)
unfolding finish_absorb
finish_absorb-Holds size a h = elim (Option-cases a.pending) [
  | inl e ↦ rw e h
  | inr (p, e) ↦ rw e (All-append Holds a.result _ h (tt, tt))
]

-- Every segment that belongs to a function is of the kind `function` and holds the function's
-- whole extent, also where blanks were folded into it.
pub segments_of-Holds :
    (functions : List Symbol) (unparsed : Option ℕ) (raw : Text)
    → All Holds (segments_of functions unparsed raw)
unfolding segments_of absorb_blank claimed_of
segments_of-Holds functions unparsed raw =
    let limit = limit_of unparsed (length raw) in
    finish_absorb-Holds (length raw) _ (
      absorb_loop-Holds raw 0 (length raw) (record { result = []; pending = none }) _
        (unfold claimed_of in claimed_of-Tiles functions unparsed (length raw)) (tiled _ refl refl)
        tt
        (claim_rest-Holds limit (length raw) _ (
          foldl_inv (λ (c : List Segment × ℕ). All Holds c.0) (claim limit) (claim-Holds limit)
            ([], 0) (sorted starts_before functions) tt)))
