-- ===== src/Grounding/Anchored.antt =====
-- What a grounded claim has.
use code_analyzer.Prelude.{
  ℕ, ◌≤◌, ◌≡◌, refl, sym, ap, Bool, true, false, Option, none, some, List, [], ◌∷◌, ◌++◌, ltb,
  if◌then◌else◌, Bool-cases, inl, inr, length, arith, any, Has, All, ◌⊎◌,
}
use code_analyzer.Prelude.Text.{Text, text_eq, text_eq→eq}
use code_analyzer.Schema.Values.{Json, present, pos, negsuc, null, bool, int, real, str, arr, obj}
use code_analyzer.Schema.{Outcome, ok, raised, ◌>>=◌}
use code_analyzer.Risk.{starts_with}
use mathlib.Core.Path.{ap₂}
use code_analyzer.Grounding.{
  min_quote_chars, Shown, Claim, Flaw, or_text, is_shown, line_flaws, normalise, is_quoted,
  quote_flaws, path_flaws, ground_claim, short_quote, unquoted, Value, word, scalar, unhashable,
  keep_unless, unknown, undefined_flaws, value_flaws, claim_flaws, last_key, contains, joined,
}

empty-left : (a b : List Flaw) → a ++ b ≡ [] → a ≡ []
empty-left [] b e = refl
empty-left (x ∷ a) b e = absurd (cc)

empty-right : (a b : List Flaw) → a ++ b ≡ [] → b ≡ []
empty-right [] b e = e
empty-right (x ∷ a) b e = absurd (cc)

abbrev pub numbers : List (ℕ × Text) → List ℕ
numbers [] = []
numbers ((n, text) ∷ lines) = n ∷ numbers lines

-- The value is a number, not in front of the first of the lines and not behind the last: one of
-- the lines has that number or a lower one, and one has that number or a higher one.
abbrev pub IsBetween : Json → List (ℕ × Text) → Type 0
IsBetween v lines =
    (n : ℕ) × (low : ℕ) × (high : ℕ) × (v ≡ int (pos n))
    × Has low (numbers lines)
    × Has high (numbers lines)
    × (low ≤ n)
    × (n ≤ high)

abbrev pub IfBetween : Option Json → List (ℕ × Text) → Type 0
IfBetween none lines = Unit
IfBetween (some v) lines = IsBetween v lines

last_key-Has : (k : ℕ) (lines : List (ℕ × Text)) → Has (last_key k lines) (k ∷ numbers lines)
last_key-Has k [] = inl refl
last_key-Has k ((n, text) ∷ lines) = inr (last_key-Has n lines)

is_shown-IsBetween :
    (v : Json) (lines : List (ℕ × Text)) → is_shown v lines ≡ true → IsBetween v lines
is_shown-IsBetween (int (pos n)) ((first, text) ∷ lines) h = (
  n,
  first,
  last_key first lines,
  refl,
  inl refl,
  last_key-Has first lines,
  ground (arith, h),
  ground (arith, h),
)
is_shown-IsBetween (int (pos n)) [] h = absurd (cc)
is_shown-IsBetween (int (negsuc n)) lines h = absurd (cc)
is_shown-IsBetween null lines h = absurd (cc)
is_shown-IsBetween (bool b) lines h = absurd (cc)
is_shown-IsBetween (real x) lines h = absurd (cc)
is_shown-IsBetween (str s) lines h = absurd (cc)
is_shown-IsBetween (arr xs) lines h = absurd (cc)
is_shown-IsBetween (obj fields) lines h = absurd (cc)

line_flaws-none :
    (o : Option Json) (lines : List (ℕ × Text)) → line_flaws o lines ≡ [] → IfBetween o lines
line_flaws-none none lines e = tt
line_flaws-none (some v) lines e = elim (Bool-cases (is_shown v lines)) [
  | inl h ↦ is_shown-IsBetween v lines h
  | inr h ↦ absurd (ground (arith, h, e))
]

-- The first text stands somewhere in the second.
abbrev pub Within : Text → Text → Type 0
Within needle text = (front : Text) × (back : Text) × (text ≡ front ++ (needle ++ back))

starts_with-back :
    (needle s : Text) → starts_with needle s ≡ true → (back : Text) × (s ≡ needle ++ back)
starts_with-back [] s h = (s, refl)
starts_with-back (c ∷ needle) [] h = absurd (cc)
starts_with-back (c ∷ needle) (d ∷ s) h =
    let (back, e) = starts_with-back needle s (ground (arith, h)) in
    let same : d ≡ c = ground (arith, h) in (back, ap₂ (λ a t. a ∷ t) same e)

contains-Within : (needle s : Text) → contains needle s ≡ true → Within needle s
contains-Within [] [] h = ([], [], refl)
contains-Within (c ∷ needle) [] h = absurd (cc)
contains-Within needle (c ∷ s) h = elim (Bool-cases (starts_with needle (c ∷ s))) [
  | inl e ↦ let (back, q) = starts_with-back needle (c ∷ s) e in ([], back, q)
  | inr e ↦
      let (front, back, q) = contains-Within needle s (ground (arith, e, h)) in
      (c ∷ front, back, ap (λ t. c ∷ t) q)
]

-- The quote, with single spaces for its white space, stands in the lines that are put together with
-- spaces, or in one of them, each with single spaces too.
abbrev pub IsQuoted : Text → List (ℕ × Text) → Type 0
IsQuoted quote lines =
    Within (normalise quote) (normalise (joined lines))
    ⊎ ((l : ℕ × Text) × Has l lines × Within (normalise quote) (normalise l.1))

any-quoted :
    (quote : Text) (lines : List (ℕ × Text))
    → any (λ l. contains (normalise quote) (normalise l.1)) lines ≡ true
    → (l : ℕ × Text) × Has l lines × Within (normalise quote) (normalise l.1)
any-quoted quote [] h = absurd (cc)
any-quoted quote (l ∷ lines) h = elim (Bool-cases (contains (normalise quote) (normalise l.1))) [
  | inl e ↦ (l, inl refl, contains-Within (normalise quote) (normalise l.1) e)
  | inr e ↦ let (k, at, w) = any-quoted quote lines (ground (arith, e, h)) in (k, inr at, w)
]

is_quoted-IsQuoted :
    (quote : Text) (lines : List (ℕ × Text)) → is_quoted quote lines ≡ true → IsQuoted quote lines
is_quoted-IsQuoted quote lines h =
    elim (Bool-cases (contains (normalise quote) (normalise (joined lines)))) [
      | inl e ↦ inl (contains-Within (normalise quote) (normalise (joined lines)) e)
      | inr e ↦ inr (any-quoted quote lines (ground (arith, e, h)))
    ]

-- The value is one of the texts that are allowed.
abbrev pub IsAllowed : List Text → Value → Type 0
IsAllowed allowed v = (t : Text) × (v ≡ word t) × Has t allowed

any-allowed : (t : Text) (allowed : List Text) → any (text_eq t) allowed ≡ true → Has t allowed
any-allowed t [] h = absurd (cc)
any-allowed t (a ∷ allowed) h = elim (Bool-cases (text_eq t a)) [
  | inl e ↦ inl (sym (text_eq→eq t a e))
  | inr e ↦ inr (any-allowed t allowed (ground (arith, e, h)))
]

-- A list of values of which none is unknown.
unknown-none :
    (allowed : List Text) (values : List Value)
    → unknown allowed values ≡ ok []
    → All (IsAllowed allowed) values
unknown-none allowed [] h = tt
unknown-none allowed (scalar v ∷ values) h = absurd (go (unknown allowed values) h)
  where
    go : (o : Outcome (List Value)) → (o >>= λ rest. ok (scalar v ∷ rest)) ≡ ok [] → ⊥
    go (ok rest) h = absurd (cc)
    go raised h = absurd (cc)
unknown-none allowed (unhashable v ∷ values) h = absurd (cc)
unknown-none allowed (word t ∷ values) h =
    let (e, rest) = go (unknown allowed values) (any (text_eq t) allowed) h in
    ((t, refl, any-allowed t allowed e), unknown-none allowed values rest)
  where
    go :
        (o : Outcome (List Value)) (b : Bool)
        → (o >>= λ rest. ok (keep_unless (word t) rest b)) ≡ ok []
        → (b ≡ true) × (o ≡ ok [])
    go (ok rest) true h = (refl, h)
    go (ok rest) false h = absurd (cc)
    go raised b h = absurd (cc)

value_flaws-none :
    (allowed : List Text) (values : List Value)
    → value_flaws allowed values ≡ ok []
    → All (IsAllowed allowed) values
value_flaws-none allowed values h = unknown-none allowed values (go (unknown allowed values) h)
  where
    go : (o : Outcome (List Value)) → (o >>= λ rest. ok (undefined_flaws rest)) ≡ ok [] → o ≡ ok []
    go (ok []) h = refl
    go (ok (v ∷ rest)) h = absurd (cc)
    go raised h = absurd (cc)

path_flaws-none : (path shown : Text) → path_flaws path shown ≡ [] → path ≡ shown
path_flaws-none path shown e = elim (Bool-cases (text_eq path shown)) [
  | inl h ↦ text_eq→eq path shown h
  | inr h ↦ absurd (ground (arith, h, e))
]

quote_flaws-none :
    (quote : Text) (lines : List (ℕ × Text))
    → quote_flaws quote lines ≡ []
    → (ltb (length (normalise quote)) min_quote_chars ≡ false) × (is_quoted quote lines ≡ true)
quote_flaws-none quote lines e =
    go (ltb (length (normalise quote)) min_quote_chars) (is_quoted quote lines) e
  where
    go :
        (a b : Bool)
        → (if a then short_quote ∷ [] else if b then [] else unquoted ∷ []) ≡ []
        → (a ≡ false) × (b ≡ true)
    go true b e = absurd (cc)
    go false true e = (refl, refl)
    go false false e = absurd (cc)

-- The parts of a list of problems that is empty.
all_empty :
    (x y z : Outcome (List Flaw)) (front : List Flaw)
    → (x >>= λ a. y >>= λ b. z >>= λ c. ok (front ++ (a ++ (b ++ c)))) ≡ ok []
    → (front ≡ []) × (x ≡ ok []) × (y ≡ ok []) × (z ≡ ok [])
all_empty (ok a) (ok b) (ok c) front h =
    let e : front ++ (a ++ (b ++ c)) ≡ [] = cc in
    let e' = empty-right front (a ++ (b ++ c)) e in
    let e'' = empty-right a (b ++ c) e' in
    (
      empty-left front (a ++ (b ++ c)) e,
      ap ok (empty-left a (b ++ c) e'),
      ap ok (empty-left b c e''),
      ap ok (empty-right b c e''),
    )
all_empty (ok a) (ok b) raised front h = absurd (cc)
all_empty (ok a) raised z front h = absurd (cc)
all_empty raised y z front h = absurd (cc)

-- A claim with no problem names the file that was shown; its line and its decisive line, where it
-- gives them, lie between the first and the last line shown; its quote has six characters or more
-- and stands in those lines, up to white space; and its values are texts that the profile defines.
pub ground_claim-anchored :
    (claim : Claim) (shown : Shown) (sfr_ids levels categories : List Text)
    → ground_claim claim shown sfr_ids levels categories ≡ ok []
    → (or_text claim.file (or_text claim.path shown.path) ≡ shown.path)
      × IfBetween (present claim.line) shown.lines
      × IfBetween (present claim.decisive_line) shown.lines
      × (6 ≤ length (normalise claim.evidence_quote))
      × IsQuoted claim.evidence_quote shown.lines
      × All (IsAllowed sfr_ids) claim.sfr
      × All (IsAllowed levels) claim.level
      × All (IsAllowed categories) claim.category
ground_claim-anchored claim shown sfr_ids levels categories h =
    let (e, x, y, z) =
      all_empty (value_flaws sfr_ids claim.sfr) (value_flaws levels claim.level)
        (value_flaws categories claim.category) (claim_flaws claim shown) h in
    let e1 = empty-right _ _ e in
    let e2 = empty-right _ _ e1 in
    let e3 = empty-right _ _ e2 in
    let (q, r) = quote_flaws-none claim.evidence_quote shown.lines (empty-left _ _ e3) in
    (
      path_flaws-none _ _ (empty-left _ _ e),
      line_flaws-none _ _ (empty-left _ _ e1),
      line_flaws-none _ _ (empty-left _ _ e2),
      ground (arith, q),
      is_quoted-IsQuoted claim.evidence_quote shown.lines r,
      value_flaws-none sfr_ids claim.sfr x,
      value_flaws-none levels claim.level y,
      value_flaws-none categories claim.category z,
    )
