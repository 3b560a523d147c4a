-- ===== src/Plan/Identity.antt =====
-- No two units of a plan have one identity: `unit_id` hashes the path, kind, name and ordinal.
use code_analyzer.Prelude.{
  ℕ, ◌<◌, ◌≡◌, refl, Bool, true, false, ◌&&◌, Option, List, [], ◌∷◌, foldl, ◌==◌, arith, ◌⊎◌, inl,
  inr, Bool-cases, All, All-append, All-map, Pairs, Pairs-snoc, foldl_inv, Option-cases,
}
use code_analyzer.Prelude.Sort.{sorted, Pairs-sorted, All-sorted}
use code_analyzer.Prelude.Text.{Text, text_eq, text_eq_refl, text_eq→eq}
use code_analyzer.Units.{Kind, Segment, chunks, segments_of}
use code_analyzer.Plan.{
  FileRecord, Files, ScanUnit, Ordinals, Planned, add_chunk, add_segment, add_text, add_file,
  path_before, plan_units, kind_eq, bump, name_of, unit_of, line_starts,
}
use code_analyzer.Plan.Complete.{Differ, Differ-flip}

-- Two units have the same text under the hash of `unit_id`.
abbrev pub same_identity : ScanUnit → ScanUnit → Bool
same_identity u v =
    text_eq u.path v.path
    && kind_eq u.kind v.kind
    && text_eq u.name v.name
    && u.ordinal == v.ordinal

abbrev pub Apart : ScanUnit → ScanUnit → Type 0
Apart u v = same_identity u v ≡ false

kind_eq→eq : (a b : Kind) → kind_eq a b ≡ true → a ≡ b
unfolding kind_eq
kind_eq→eq a b h = ground arith

-- A unit of another file, or one whose ordinal was given out already.
abbrev Used : Text → Ordinals → ScanUnit → Type 0
Used path ordinals u = (text_eq u.path path ≡ false) ⊎ (u.ordinal < ordinals u.kind u.name)

record IdInv (path : Text) (p : Planned) : Type 0 where
  apart : Pairs Apart p.0
  used : All (Used path p.1) p.0

Used-bump :
    (path : Text) (ordinals : Ordinals) (kind : Kind) (name : Text) (u : ScanUnit)
    → Used path ordinals u
    → Used path (bump ordinals kind name) u
Used-bump path ordinals kind name u (inl h) = inl h
Used-bump path ordinals kind name u (inr h) =
    inr (ground (arith, kind_eq→eq kind u.kind, text_eq→eq name u.name))

Used-Apart :
    (path : Text) (ordinals : Ordinals) (u v : ScanUnit)
    → v.path ≡ path
    → v.ordinal ≡ ordinals v.kind v.name
    → Used path ordinals u
    → Apart u v
Used-Apart path ordinals u v e o (inl h) = rw (e, h)
Used-Apart path ordinals u v e o (inr h) =
    ground (arith, kind_eq→eq u.kind v.kind, text_eq→eq u.name v.name)

kind_eq_refl : (k : Kind) → kind_eq k k ≡ true
unfolding kind_eq
kind_eq_refl k = ground arith

module _ (r : FileRecord) (raw : Text) where
  add_chunk-Inv :
      (s : Segment) (p : Planned) (c : ℕ × ℕ)
      → IdInv r.path p
      → IdInv r.path (add_chunk r raw s p c)
  unfolding add_chunk unit_of
  add_chunk-Inv s (units, ordinals) (begin, stop) inv =
      let u =
        unit_of r (line_starts raw) (ordinals s.kind (name_of s.symbol)) s.kind begin stop
          s.symbol in
      record {
        apart = Pairs-snoc Apart units u inv.apart (
            All-map (Used r.path ordinals) (λ x. Apart x u)
              (λ x. Used-Apart r.path ordinals x u refl refl) units inv.used);
        used =
            All-append _ units (u ∷ [])
              (All-map (Used r.path ordinals) _
                (λ x. Used-bump r.path ordinals s.kind (name_of s.symbol) x) units inv.used)
              (inr (rw (kind_eq_refl, text_eq_refl) (omega arith)), tt);
      }

  add_segment-Inv :
      (p : Planned) (s : Segment) → IdInv r.path p → IdInv r.path (add_segment r raw p s)
  unfolding add_segment
  add_segment-Inv p s inv =
      foldl_inv (IdInv r.path) (add_chunk r raw s) (add_chunk-Inv s) p
        (chunks raw s.start s.end s.kind) inv

  Pairs-add_text :
      (units : List ScanUnit)
      → Pairs Apart units
      → All (λ u. text_eq u.path r.path ≡ false) units
      → Pairs Apart (add_text r raw units)
  unfolding add_text
  Pairs-add_text units p h =
      (foldl_inv (IdInv r.path) (add_segment r raw) add_segment-Inv (units, λ kind name. 0)
        (segments_of r.functions r.unparsed_from raw)
        (record {
          apart = p;
          used = All-map (λ u. text_eq u.path r.path ≡ false) _ (λ u e. inl e) units h;
        })).apart

  -- The units that a file adds have the file's path.
  All-add_segment :
      (Q : Text → Type 0)
      → Q r.path
      → (p : Planned) (s : Segment) → All (λ u. Q u.path) p.0
      → All (λ u. Q u.path) (add_segment r raw p s).0
  unfolding add_segment add_chunk unit_of
  All-add_segment Q q p s h =
      foldl_inv (λ (p : Planned). All (λ u. Q u.path) p.0) (add_chunk r raw s)
        (λ p c k. All-append (λ u. Q u.path) p.0 _ k (q, tt)) p (chunks raw s.start s.end s.kind) h

  All-add_text :
      (Q : Text → Type 0) (units : List ScanUnit)
      → Q r.path
      → All (λ u. Q u.path) units
      → All (λ u. Q u.path) (add_text r raw units)
  unfolding add_text
  All-add_text Q units q h =
      foldl_inv (λ (p : Planned). All (λ u. Q u.path) p.0) (add_segment r raw) (All-add_segment Q q)
        (units, λ kind name. 0) (segments_of r.functions r.unparsed_from raw) h

-- No unit so far belongs to the file.
abbrev IsNew : List ScanUnit → Text × FileRecord → Type 0
IsNew units f = All (λ u. text_eq u.path f.0 ≡ false) units

-- The record of a file carries the path that is its key.
abbrev pub IsKeyed : Text × FileRecord → Type 0
IsKeyed f = f.1.path ≡ f.0

module _ (read : Text → Option Text) where
  Pairs-add_file :
      (units : List ScanUnit) (f : Text × FileRecord)
      → IsKeyed f
      → Pairs Apart units
      → IsNew units f
      → Pairs Apart (add_file read units f)
  unfolding add_file
  Pairs-add_file units (path, r) k p n = elim (Bool-cases r.readable) [
    | inl e ↦ elim (Option-cases (read path)) [
      | inl o ↦ rw (e, o) p
      | inr (raw, o) ↦ rw (e, o) (Pairs-add_text r raw units p (rw k n))
    ]
    | inr e ↦ rw e p
  ]

  IsNew-add_file :
      (units : List ScanUnit) (f g : Text × FileRecord)
      → IsKeyed f
      → Differ f g
      → IsNew units g
      → IsNew (add_file read units f) g
  unfolding add_file
  IsNew-add_file units (path, r) g k d n = elim (Bool-cases r.readable) [
    | inl e ↦ elim (Option-cases (read path)) [
      | inl o ↦ rw (e, o) n
      | inr (raw, o) ↦ rw (e, o) (All-add_text r raw (λ p. text_eq p g.0 ≡ false) units (rw k d) n)
    ]
    | inr e ↦ rw e n
  ]

  All-IsNew :
      (units : List ScanUnit) (f : Text × FileRecord) (files : Files)
      → IsKeyed f
      → All (Differ f) files
      → All (IsNew units) files
      → All (IsNew (add_file read units f)) files
  All-IsNew units f [] k d n = tt
  All-IsNew units f (g ∷ files) k d n =
      (IsNew-add_file units f g k d.0 n.0, All-IsNew units f files k d.1 n.1)

  Pairs-foldl :
      (units : List ScanUnit) (files : Files)
      → All IsKeyed files
      → Pairs Differ files
      → Pairs Apart units
      → All (IsNew units) files
      → Pairs Apart (foldl (add_file read) units files)
  Pairs-foldl units [] k d p n = p
  Pairs-foldl units (f ∷ files) k d p n =
      Pairs-foldl (add_file read units f) files k.1 d.1 (Pairs-add_file units f k.0 p n.0)
        (All-IsNew units f files k.0 d.0 n.1)

All-nil : (files : Files) → All (IsNew []) files
All-nil [] = tt
All-nil (f ∷ files) = (tt, All-nil files)

-- When the index names each path once, no two units of the plan agree in path, kind, name and
-- ordinal, whatever files can be read and whatever extents the parser reports.
pub plan_units-Apart :
    (read : Text → Option Text) (files : Files)
    → All IsKeyed files
    → Pairs Differ files
    → Pairs Apart (plan_units read files)
unfolding plan_units
plan_units-Apart read files k d =
    Pairs-foldl read [] (sorted path_before files) (All-sorted path_before IsKeyed files k)
      (Pairs-sorted path_before Differ Differ-flip files d) tt (All-nil _)
