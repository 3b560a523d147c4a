-- ===== src/Plan/Complete.antt =====
-- The plan of `plan_units` passes the check of `coverage_gaps`.
use code_analyzer.Prelude.{
  ℕ, ◌≤◌, ◌<◌, ◌≡◌, refl, subst, true, false, Option, some, List, [], ◌∷◌, ◌++◌, foldl,
  if◌then◌else◌, length, arith, inl, inr, Bool-cases, ◌∙◌, All, Pairs, append-nil, append_assoc,
}
use code_analyzer.Prelude.Sort.{sorted, IsSorted, sorted_id, Pairs-sorted, All-sorted}
use code_analyzer.Prelude.Text.{Text, text_eq, text_eq_refl, text_eq_sym}
use code_analyzer.Units.{Segment, chunks, segments_of}
use code_analyzer.Units.Tiling.{Tiles, Tiles-append}
use code_analyzer.Units.Chunks.{chunks-Tiles}
use code_analyzer.Units.Segments.{TilesBy}
use code_analyzer.Units.Absorb.{segments_of-Tiles}
use code_analyzer.Plan.{
  FileRecord, Files, ScanUnit, Planned, add_chunk, add_segment, add_text, add_file, path_before,
  plan_units, spans_at, Scan, scan_span, scan_end, scan_spans, span_before, report, coverage_gaps,
  unit_of,
}
use code_analyzer.Plan.Gaps.{IsQuiet}

-- Spans that tile a range are in order, and the check finds nothing.
Tiles-ge : (lo hi : ℕ) (xs : List (ℕ × ℕ)) → Tiles lo hi xs → All (λ (p : ℕ × ℕ). lo ≤ p.0) xs
Tiles-ge lo hi [] t = tt
Tiles-ge lo hi ((start, end) ∷ xs) t = (omega arith, ge xs (Tiles-ge end hi xs t.2))
  where
    ge : (ys : List (ℕ × ℕ)) → All (λ (p : ℕ × ℕ). end ≤ p.0) ys → All (λ (p : ℕ × ℕ). lo ≤ p.0) ys
    ge [] h = tt
    ge (y ∷ ys) h = (omega arith, ge ys h.1)

not_before :
    (start end : ℕ) (xs : List (ℕ × ℕ))
    → start < end
    → All (λ (p : ℕ × ℕ). end ≤ p.0) xs
    → All (λ y. span_before y (start, end) ≡ false) xs
not_before start end [] h a = tt
not_before start end ((x, y) ∷ xs) h a = (ground arith, not_before start end xs h a.1)

Tiles-IsSorted : (lo hi : ℕ) (xs : List (ℕ × ℕ)) → Tiles lo hi xs → IsSorted span_before xs
Tiles-IsSorted lo hi [] t = tt
Tiles-IsSorted lo hi ((start, end) ∷ xs) t =
    (not_before start end xs t.1 (Tiles-ge end hi xs t.2), Tiles-IsSorted end hi xs t.2)

scan-Tiles :
    (lo hi : ℕ) (s : Scan) (xs : List (ℕ × ℕ))
    → Tiles lo hi xs
    → IsQuiet s
    → s.cursor ≡ lo
    → IsQuiet (foldl scan_span s xs) × ((foldl scan_span s xs).cursor ≡ hi)
unfolding scan_span
scan-Tiles lo hi s [] t q e = (q, e ∙ t)
scan-Tiles lo hi s ((start, end) ∷ xs) t q e =
    scan-Tiles end hi (scan_span s (start, end)) xs t.2
      (record { no_gaps = ground arith; no_overlaps = ground arith }) (omega arith)

scan_spans-Tiles : (size : ℕ) (xs : List (ℕ × ℕ)) → Tiles 0 size xs → IsQuiet (scan_spans size xs)
unfolding scan_spans scan_end
scan_spans-Tiles size xs t =
    let (q, e) =
      scan-Tiles 0 size (record { gaps = []; overlaps = []; cursor = 0 }) xs t
        (record { no_gaps = refl; no_overlaps = refl }) refl in
    rw (sorted_id span_before xs (Tiles-IsSorted 0 size xs t))
      (record { no_gaps = ground arith; no_overlaps = ground arith })

-- The spans of the units that a file's loops add.
spans_at-append :
    (path : Text) (us vs : List ScanUnit)
    → spans_at path (us ++ vs) ≡ spans_at path us ++ spans_at path vs
unfolding spans_at
spans_at-append path [] vs = refl
spans_at-append path (u ∷ us) vs = elim (Bool-cases (text_eq u.path path)) [
  | inl e ↦ rw (e, spans_at-append path us vs)
  | inr e ↦ rw (e, spans_at-append path us vs)
]

-- The spans of one path that `xs` adds, for a file of the path `own`.
abbrev added : Text → Text → List (ℕ × ℕ) → List (ℕ × ℕ)
added path own xs = if text_eq own path then xs else []

module _ (path : Text) (r : FileRecord) (raw : Text) where
  added-append :
      (xs ys : List (ℕ × ℕ))
      → added path r.path xs ++ added path r.path ys ≡ added path r.path (xs ++ ys)
  added-append xs ys = elim (Bool-cases (text_eq r.path path)) [ inl e ↦ rw e | inr e ↦ rw e ]

  added-nil : added path r.path [] ≡ []
  added-nil = ground arith

  spans_at-add_chunk :
      (s : Segment) (p : Planned) (c : ℕ × ℕ)
      → spans_at path (add_chunk r raw s p c).0 ≡ spans_at path p.0 ++ added path r.path (c ∷ [])
  unfolding add_chunk unit_of spans_at
  spans_at-add_chunk s (units, ordinals) (begin, stop) = spans_at-append path units _

  spans_at-chunks :
      (s : Segment) (p : Planned) (cs : List (ℕ × ℕ))
      → spans_at path (foldl (add_chunk r raw s) p cs).0 ≡ spans_at path p.0 ++ added path r.path cs
  spans_at-chunks s p [] = rw (added-nil, append-nil)
  spans_at-chunks s p (c ∷ cs) =
      spans_at-chunks s (add_chunk r raw s p c) cs
      ∙ rw (spans_at-add_chunk, append_assoc, added-append)

  -- The spans of the units of a list of segments.
  abbrev chunks_of : List Segment → List (ℕ × ℕ)
  chunks_of [] = []
  chunks_of (s ∷ segments) = chunks raw s.start s.end s.kind ++ chunks_of segments

  chunks_of-Tiles :
      (lo hi : ℕ) (segments : List Segment)
      → TilesBy lo hi segments
      → Tiles lo hi (chunks_of segments)
  chunks_of-Tiles lo hi [] t = t
  chunks_of-Tiles lo hi (s ∷ segments) t =
      subst (λ n. Tiles n hi (chunks_of (s ∷ segments))) t.0
        (Tiles-append s.start s.end hi (chunks raw s.start s.end s.kind) (chunks_of segments)
          (chunks-Tiles raw s.start s.end s.kind t.1) (chunks_of-Tiles s.end hi segments t.2))

  spans_at-segments :
      (p : Planned) (segments : List Segment)
      → spans_at path (foldl (add_segment r raw) p segments).0
        ≡ spans_at path p.0 ++ added path r.path (chunks_of segments)
  unfolding add_segment
  spans_at-segments p [] = rw (added-nil, append-nil)
  spans_at-segments p (s ∷ segments) =
      spans_at-segments (add_segment r raw p s) segments
      ∙ rw (spans_at-chunks, append_assoc, added-append)

  spans_at-add_text :
      (units : List ScanUnit)
      → spans_at path (add_text r raw units)
        ≡ spans_at path units
          ++ added path r.path (chunks_of (segments_of r.functions r.unparsed_from raw))
  unfolding add_text
  spans_at-add_text units =
      spans_at-segments (units, λ kind name. 0) (segments_of r.functions r.unparsed_from raw)

-- What the index says of a file is so: its key is its path, and if it is readable, then its bytes
-- are there, as many as it says.
abbrev pub IsIndexed : (Text → Option Text) → Text × FileRecord → Type 0
IsIndexed read (path, r) =
    (r.path ≡ path)
    × (r.readable ≡ true → (raw : Text) × (read path ≡ some raw) × (length raw ≡ r.size))

abbrev pub Differ : Text × FileRecord → Text × FileRecord → Type 0
Differ a b = text_eq a.0 b.0 ≡ false

pub Differ-flip : (a b : Text × FileRecord) → Differ a b → Differ b a
Differ-flip a b h = text_eq_sym b.0 a.0 ∙ h

module _ (read : Text → Option Text) where
  spans_at-add_file_ne :
      (path : Text) (units : List ScanUnit) (f : Text × FileRecord)
      → IsIndexed read f
      → text_eq f.0 path ≡ false
      → spans_at path (add_file read units f) ≡ spans_at path units
  unfolding add_file
  spans_at-add_file_ne path units (key, r) i n = elim (Bool-cases r.readable) [
    | inl e ↦
        let (raw, there, size) = i.1 e in
        rw (e, there) (spans_at-add_text path r raw units ∙ rw (i.0, n, append-nil))
    | inr e ↦ rw e
  ]

  Tiles-add_file :
      (units : List ScanUnit) (f : Text × FileRecord)
      → IsIndexed read f
      → spans_at f.0 units ≡ []
      → f.1.readable ≡ true
      → Tiles 0 f.1.size (spans_at f.0 (add_file read units f))
  unfolding add_file
  Tiles-add_file units (key, r) i none_yet e =
      let (raw, there, size) = i.1 e in
      rw (e, there, spans_at-add_text, none_yet, i.0, text_eq_refl, ← size)
        (chunks_of-Tiles key r raw 0 (length raw) _
          (segments_of-Tiles r.functions r.unparsed_from raw))

  spans_at-foldl_ne :
      (path : Text) (units : List ScanUnit) (files : Files)
      → All (IsIndexed read) files
      → All (λ f. text_eq path f.0 ≡ false) files
      → spans_at path (foldl (add_file read) units files) ≡ spans_at path units
  spans_at-foldl_ne path units [] i n = refl
  spans_at-foldl_ne path units (f ∷ files) i n =
      spans_at-foldl_ne path (add_file read units f) files i.1 n.1
      ∙ spans_at-add_file_ne path units f i.0 (text_eq_sym f.0 path ∙ n.0)

  -- A readable file's spans in the plan tile it.
  abbrev IsPlanned : List ScanUnit → Text × FileRecord → Type 0
  IsPlanned units f = f.1.readable ≡ true → Tiles 0 f.1.size (spans_at f.0 units)

  untouched :
      (units : List ScanUnit) (f : Text × FileRecord) (files : Files)
      → IsIndexed read f
      → All (Differ f) files
      → All (λ g. spans_at g.0 units ≡ []) files
      → All (λ g. spans_at g.0 (add_file read units f) ≡ []) files
  untouched units f [] i d n = tt
  untouched units f (g ∷ files) i d n =
      (spans_at-add_file_ne g.0 units f i d.0 ∙ n.0, untouched units f files i d.1 n.1)

  foldl-IsPlanned :
      (units : List ScanUnit) (files : Files)
      → All (IsIndexed read) files
      → Pairs Differ files
      → All (λ g. spans_at g.0 units ≡ []) files
      → All (IsPlanned (foldl (add_file read) units files)) files
  foldl-IsPlanned units [] i d n = tt
  foldl-IsPlanned units (f ∷ files) i d n = (
    λ e.
        rw (spans_at-foldl_ne f.0 (add_file read units f) files i.1 d.0)
          (Tiles-add_file units f i.0 n.0 e),
    foldl-IsPlanned (add_file read units f) files i.1 d.1 (untouched units f files i.0 d.0 n.1),
  )

  none_at_first : (files : Files) → All (λ g. spans_at g.0 [] ≡ []) files
  unfolding spans_at
  none_at_first [] = tt
  none_at_first (f ∷ files) = (refl, none_at_first files)

  report-nil :
      (units : List ScanUnit) (files : Files)
      → All (IsPlanned units) files
      → report units files ≡ []
  unfolding report
  report-nil units [] h = refl
  report-nil units ((path, r) ∷ files) h = elim (Bool-cases r.readable) [
    | inl e ↦
        let q = scan_spans-Tiles r.size (spans_at path units) (h.0 e) in
        rw (e, q.no_gaps, q.no_overlaps) (report-nil units files h.1)
    | inr e ↦ rw e (report-nil units files h.1)
  ]

-- Whenever the index is true of the files and names each path once, the check of the plan's
-- coverage reports nothing: each readable file is tiled by its scan units.
pub coverage_gaps-plan_units :
    (read : Text → Option Text) (files : Files)
    → All (IsIndexed read) files
    → Pairs Differ files
    → coverage_gaps (plan_units read files) files ≡ []
unfolding coverage_gaps plan_units
coverage_gaps-plan_units read files i d = report-nil read _ (sorted path_before files) (
    foldl-IsPlanned read [] (sorted path_before files)
      (All-sorted path_before (IsIndexed read) files i)
      (Pairs-sorted path_before Differ Differ-flip files d) (none_at_first read _))
