-- ===== src/Ledger/Unique.antt =====
-- The seqs of the ledger: every writer numbers behind every record of the file.
use code_analyzer.Prelude.{
  ℕ, zero, suc, ◌+◌, ◌≤◌, ◌<◌, max, ◌≡◌, refl, sym, ap, ◌∙◌, subst, Option, none, some, List, [],
  ◌∷◌, ◌++◌, map, ◌==◌, foldl, foldl_inv, length, take, drop, arith, Bool-cases, inl, inr,
  append-nil, append_assoc,
}
use code_analyzer.Ledger.{
  Record, Line, whole, torn, File, Writer, fresh, knows, Cut, clean, within, unended, records_of,
  tail_line, read, highest, numbered, grow, left_by, bytes, last_seq, append_many, Step, call, kill,
  World, step, start, lines_bytes, tail_bytes, set_writer,
}

module _ {A : Type 0} where
  -- Each seq is higher than the one in front of it, and the first one than `bound`.
  abbrev pub IsIncreasing : ℕ → List (Record A) → Type 0
  IsIncreasing bound [] = Unit
  IsIncreasing bound (r ∷ rest) = (bound < r.seq) × IsIncreasing r.seq rest

  IsIncreasing-append :
      (bound s : ℕ) (xs ys : List (Record A))
      → IsIncreasing bound xs
      → bound ≤ s
      → highest xs ≤ s
      → IsIncreasing s ys
      → IsIncreasing bound (xs ++ ys)
  IsIncreasing-append bound s [] [] h b m k = tt
  IsIncreasing-append bound s [] (y ∷ ys) h b m k = (omega (arith, k.0), k.1)
  IsIncreasing-append bound s (x ∷ xs) ys h b m k =
      (h.0, IsIncreasing-append x.seq s xs ys h.1 (omega arith) (omega arith) k)

  take-numbered : (m seq : ℕ) (entries : List A) → IsIncreasing seq (take m (numbered seq entries))
  take-numbered zero seq entries = tt
  take-numbered (suc m) seq [] = tt
  take-numbered (suc m) seq (a ∷ entries) = (omega arith, take-numbered m (suc seq) entries)

  highest-append : (xs ys : List (Record A)) → highest (xs ++ ys) ≡ max (highest xs) (highest ys)
  highest-append [] ys = omega arith
  highest-append (x ∷ xs) ys = omega (arith, highest-append xs ys)

  highest-numbered :
      (seq : ℕ) (entries : List A) → highest (numbered seq entries) ≤ seq + length entries
  highest-numbered seq [] = omega arith
  highest-numbered seq (a ∷ entries) = omega (arith, highest-numbered (suc seq) entries)

  records_of-append :
      (xs ys : List (Line A)) → records_of (xs ++ ys) ≡ records_of xs ++ records_of ys
  records_of-append [] ys = refl
  records_of-append (whole r ∷ xs) ys = ap (λ t. r ∷ t) (records_of-append xs ys)
  records_of-append (torn n ∷ xs) ys = records_of-append xs ys

  records_of-whole : (rs : List (Record A)) → records_of (map whole rs) ≡ rs
  records_of-whole [] = refl
  records_of-whole (r ∷ rs) = ap (λ t. r ∷ t) (records_of-whole rs)

  pub read-grow :
      (file : File A) (rs : List (Record A)) (tail : Option (Line A))
      → read (grow file rs tail) ≡ read file ++ rs ++ records_of (tail_line tail)
  read-grow file rs tail =
      ap (λ front. front ++ records_of (tail_line tail))
        (records_of-append (file.lines ++ tail_line file.tail) (map whole rs)
          ∙ ap (λ front. front ++ records_of (map whole rs))
              (records_of-append file.lines (tail_line file.tail))
          ∙ ap (λ back. read file ++ back) (records_of-whole rs))

  -- The records that stand behind a killed process' part of a call.
  left_by-numbered :
      (n : ℕ) (cut : Cut) (rs : List (Record A))
      → (m : ℕ) × (take n rs ++ records_of (tail_line (left_by cut (drop n rs))) ≡ take m rs)
  left_by-numbered n clean rs = (n, append-nil (take n rs))
  left_by-numbered n (within k) rs = (n, append-nil (take n rs))
  left_by-numbered zero unended [] = (0, refl)
  left_by-numbered (suc n) unended [] = (0, refl)
  left_by-numbered zero unended (r ∷ rs) = (1, refl)
  left_by-numbered (suc n) unended (r ∷ rs) =
      let (m, e) = left_by-numbered n unended rs in (suc m, ap (λ t. r ∷ t) e)

module _ {A : Type 0} (width : Record A → ℕ) where
  lines_bytes-append :
      (xs ys : List (Line A))
      → lines_bytes width (xs ++ ys) ≡ lines_bytes width xs + lines_bytes width ys
  lines_bytes-append [] ys = omega arith
  lines_bytes-append (x ∷ xs) ys = omega (arith, lines_bytes-append xs ys)

  -- A writer knows no size that the file has not reached, and where it knows the file's size, no
  -- record has a higher seq than the writer's.
  abbrev pub IsCurrent : File A → Writer → Type 0
  IsCurrent file fresh = Unit
  IsCurrent file (knows seq size) =
      (size ≤ bytes width file) × (size ≡ bytes width file → highest (read file) ≤ seq)

  highest-last_seq :
      (file : File A) (w : Writer) → IsCurrent file w → highest (read file) ≤ last_seq width w file
  highest-last_seq file fresh h = omega arith
  highest-last_seq file (knows seq size) h = elim (Bool-cases (bytes width file == size)) [
    | inr e ↦ rw e (omega arith)
    | inl e ↦ rw e (h.1 (ground arith))
  ]

  tail_line-bytes :
      (tail : Option (Line A)) → tail_bytes width tail ≤ lines_bytes width (tail_line tail)
  tail_line-bytes none = omega arith
  tail_line-bytes (some l) = omega arith

  whole-bytes : (rs : List (Record A)) → length rs ≤ lines_bytes width (map whole rs)
  whole-bytes [] = omega arith
  whole-bytes (r ∷ rs) = omega (arith, whole-bytes rs)

  bytes-grow :
      (file : File A) (rs : List (Record A)) (tail : Option (Line A))
      → bytes width file + length rs + tail_bytes width tail ≤ bytes width (grow file rs tail)
  bytes-grow file rs tail = omega (
    arith,
    lines_bytes-append (file.lines ++ tail_line file.tail) (map whole rs),
    lines_bytes-append file.lines (tail_line file.tail),
    tail_line-bytes file.tail,
    whole-bytes rs,
  )

  highest-same :
      (old rs : List (Record A)) (tail : Option (Line A))
      → length rs + tail_bytes width tail ≤ 0
      → highest (old ++ rs ++ records_of (tail_line tail)) ≡ highest old
  highest-same old [] none h = ap highest (append-nil (old ++ []) ∙ append-nil old)
  highest-same old [] (some (whole r)) h = absurd (omega arith)
  highest-same old [] (some (torn n)) h = absurd (omega arith)
  highest-same old (r ∷ rs) tail h = absurd (omega arith)

  -- What a grown file has no more bytes than the old one, has no more records.
  grow-IsCurrent :
      (file : File A) (rs : List (Record A)) (tail : Option (Line A)) (w : Writer)
      → IsCurrent file w
      → IsCurrent (grow file rs tail) w
  grow-IsCurrent file rs tail fresh h = tt
  grow-IsCurrent file rs tail (knows seq size) h = (
    omega (arith, h.0, bytes-grow file rs tail),
    λ e. omega (
      arith,
      h.1 (omega (arith, h.0, e, bytes-grow file rs tail)),
      ap highest (read-grow file rs tail)
          ∙ highest-same (read file) rs tail (omega (arith, h.0, e, bytes-grow file rs tail)),
    ),
  )

  appended-IsCurrent :
      (file : File A) (entries : List A) (w : Writer)
      → IsCurrent file w
      → IsCurrent (append_many width w entries file).1 (append_many width w entries file).0
  appended-IsCurrent file entries w h =
      let seq = last_seq width w file in
      (
        omega arith,
        λ _. omega (
          arith,
          ap highest (read-grow file (numbered seq entries) none),
          highest-append (read file ++ numbered seq entries) [],
          highest-append (read file) (numbered seq entries),
          highest-numbered seq entries,
          highest-last_seq file w h,
        ),
      )

  -- The seqs rise along the file, and every writer is current.
  abbrev pub IsSound : World width → Type 0
  IsSound world =
      IsIncreasing 0 (read world.file) × ((i : ℕ) → IsCurrent world.file (world.writers i))

  set_writer-IsCurrent :
      (file : File A) (writers : ℕ → Writer) (i j : ℕ) (w : Writer)
      → IsCurrent file w
      → IsCurrent file (writers j)
      → IsCurrent file (set_writer width writers i w j)
  set_writer-IsCurrent file writers i j w h k = elim (Bool-cases (j == i)) [
    | inl e ↦ rw e h
    | inr e ↦ rw e k
  ]

  taken-IsIncreasing :
      (file : File A) (w : Writer) (entries : List A) (m : ℕ) (rs : List (Record A))
      → IsIncreasing 0 (read file)
      → IsCurrent file w
      → rs ≡ take m (numbered (last_seq width w file) entries)
      → IsIncreasing 0 (read file ++ rs)
  taken-IsIncreasing file w entries m rs h k e =
      IsIncreasing-append 0 (last_seq width w file) (read file) rs h (omega arith)
        (highest-last_seq file w k)
        (subst (IsIncreasing (last_seq width w file)) (sym e)
          (take-numbered m (last_seq width w file) entries))

  take-all : (rs : List (Record A)) → rs ≡ take (length rs) rs
  take-all [] = refl
  take-all (r ∷ rs) = ap (λ t. r ∷ t) (take-all rs)

  step-IsSound :
      (world : World width) (s : Step width) → IsSound world → IsSound (step width world s)
  step-IsSound world (call i entries) (h, k) =
      let rs = numbered (last_seq width (world.writers i) world.file) entries in
      (
        subst (IsIncreasing 0)
            (sym (read-grow world.file rs none ∙ append-nil (read world.file ++ rs)))
            (taken-IsIncreasing world.file (world.writers i) entries (length rs) rs h (k i)
              (take-all rs)),
        λ j.
            set_writer-IsCurrent (grow world.file rs none) world.writers i j _
              (appended-IsCurrent world.file entries (world.writers i) (k i))
              (grow-IsCurrent world.file rs none (world.writers j) (k j)),
      )
  step-IsSound world (kill i entries n cut) (h, k) =
      let rs = numbered (last_seq width (world.writers i) world.file) entries in
      let tail = left_by cut (drop n rs) in
      let (m, e) = left_by-numbered n cut rs in
      (
        subst (IsIncreasing 0)
            (sym (
              read-grow world.file (take n rs) tail
              ∙ append_assoc (read world.file) (take n rs) (records_of (tail_line tail))))
            (taken-IsIncreasing world.file (world.writers i) entries m _ h (k i) e),
        λ j.
            set_writer-IsCurrent (grow world.file (take n rs) tail) world.writers i j fresh tt
              (grow-IsCurrent world.file (take n rs) tail (world.writers j) (k j)),
      )

  -- However many writers append to one ledger file, each with the seq it remembers, and wherever
  -- one of them is killed in the middle of a write: the seqs of the records that read back rise
  -- along the file, so that no two records have one seq.
  pub run-IsIncreasing :
      (steps : List (Step width))
      → IsIncreasing 0 (read (foldl (step width) (start width) steps).file)
  run-IsIncreasing steps =
      (foldl_inv IsSound (step width) step-IsSound (start width) steps (tt, λ i. tt)).0
