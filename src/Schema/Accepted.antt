-- ===== src/Schema/Accepted.antt =====
-- What the validation of scanner findings lets through, and that nothing is lost without a report.
use code_analyzer.Prelude.{
  ℕ, suc, ◌+◌, ◌≤◌, ◌≡◌, refl, subst, true, false, ◌||◌, Option, none, some, List, [], ◌∷◌, ltb,
  length, arith, All, inl, inr, Bool-cases,
}
use code_analyzer.Prelude.Text.{Text, codes, is_empty}
use code_analyzer.Schema.Values.{
  ℤ, pos, negsuc, Float, Json, null, bool, int, real, str, arr, obj, Fields, in_unit, text_of,
  Digit, get, present,
}
use code_analyzer.Schema.{
  Outcome, ok, raised, ◌>>=◌, max_line, severities, finding_categories, one_of, Reason, Finding,
  line_number, check_range, both_numbers, entries_range, values_range, line_range_of, cwe_of,
  confidence_of, Checked, accepted, dropped, check_confidence, check_cwe, check_span,
  validate_fields, validate, collect, unit_float, float_of_int, declared_cwe, range_value, respell,
  category_spellings, lower, add_checked, add_confidence, declare_confidence, add_cwe, declare_cwe,
  second_entry,
}

-- The condition on the value, where there is one.
abbrev pub Post : {A : Type 0} → (A → Type 0) → Outcome A → Type 0
Post P (ok a) = P a
Post P raised = Unit

pub Post-bind :
    {A B : Type 0} (P : A → Type 0) (Q : B → Type 0) (m : Outcome A) (f : A → Outcome B)
    → Post P m
    → ((a : A) → P a → Post Q (f a))
    → Post Q (m >>= f)
Post-bind P Q (ok a) f h k = k a h
Post-bind P Q raised f h k = tt

pub Post-any : {A : Type 0} (m : Outcome A) → Post (λ _. Unit) m
Post-any raised = tt
Post-any (ok a) = tt

abbrev pub InRange : ℕ × ℕ → Type 0
InRange span = (1 ≤ span.0) × (span.0 ≤ span.1) × (span.1 ≤ max_line)

abbrev IfSome : {A : Type 0} → (A → Type 0) → Option A → Type 0
IfSome P none = Unit
IfSome P (some a) = P a

check_range-InRange : (a b : ℤ) → IfSome InRange (check_range a b)
check_range-InRange (pos a) (pos b) = elim (Bool-cases (ltb a 1 || ltb b a || ltb max_line b)) [
  | inl e ↦ rw e tt
  | inr e ↦ rw e (ground arith, ground arith, ground arith)
]
check_range-InRange (pos a) (negsuc b) = tt
check_range-InRange (negsuc a) b = tt

abbrev SpanOk : Option (ℕ × ℕ) × Reason → Type 0
SpanOk r = IfSome InRange r.0

both_numbers-SpanOk : (a b : Option ℤ) → SpanOk (both_numbers a b)
both_numbers-SpanOk none b = tt
both_numbers-SpanOk (some a) none = tt
both_numbers-SpanOk (some a) (some b) = check_range-InRange a b

-- A finding that the later stages may rely on.
pub record IsWellFormed (f : Finding) : Type 0 where
  pub file : is_empty f.file ≡ false
  pub message : is_empty f.message ≡ false
  pub category : one_of finding_categories f.category ≡ true
  pub severity : one_of severities f.severity ≡ true
  pub span : InRange f.line_range
  pub line : f.line ≡ f.line_range.0
  pub confidence : IfSome (λ c. in_unit c ≡ true) f.confidence

abbrev CheckedOk : Checked → Type 0
CheckedOk (accepted f) = IsWellFormed f
CheckedOk (dropped reason) = Unit

unit_float-in_unit : (f : Float) → IfSome (λ c. in_unit c ≡ true) (unit_float f)
unit_float-in_unit f = elim (Bool-cases (in_unit f)) [ inl e ↦ rw e e | inr e ↦ rw e tt ]

confidence_of-in_unit : (v : Json) → Post (IfSome (λ c. in_unit c ≡ true)) (confidence_of v)
unfolding confidence_of
confidence_of-in_unit (int n) = go (float_of_int n)
  where
    go : (m : Outcome Float) → Post (IfSome (λ c. in_unit c ≡ true)) (m >>= λ f. ok (unit_float f))
    go raised = tt
    go (ok f) = unit_float-in_unit f
confidence_of-in_unit (real f) = unit_float-in_unit f
confidence_of-in_unit null = tt
confidence_of-in_unit (bool b) = tt
confidence_of-in_unit (str s) = tt
confidence_of-in_unit (arr xs) = tt
confidence_of-in_unit (obj xs) = tt

confidence_added-CheckedOk :
    (f : Finding) (c : Option Float)
    → IsWellFormed f
    → IfSome (λ c. in_unit c ≡ true) c
    → CheckedOk (add_confidence f c)
confidence_added-CheckedOk f none h p = tt
confidence_added-CheckedOk f (some c) h p = record {
  file = h.file;
  message = h.message;
  category = h.category;
  severity = h.severity;
  span = h.span;
  line = h.line;
  confidence = p;
}

declare_confidence-CheckedOk :
    (f : Finding) (o : Option Json) → IsWellFormed f → Post CheckedOk (declare_confidence f o)
declare_confidence-CheckedOk f none h = h
declare_confidence-CheckedOk f (some v) h =
    Post-bind (IfSome (λ c. in_unit c ≡ true)) CheckedOk (confidence_of v)
      (λ c. ok (add_confidence f c)) (confidence_of-in_unit v)
      (λ c p. confidence_added-CheckedOk f c h p)

check_confidence-CheckedOk :
    (item : Fields) (f : Finding) → IsWellFormed f → Post CheckedOk (check_confidence item f)
unfolding check_confidence
check_confidence-CheckedOk item f =
    declare_confidence-CheckedOk f (present (get (codes "confidence") item))

add_cwe-CheckedOk :
    (item : Fields) (f : Finding) (n : Option ℕ)
    → IsWellFormed f
    → Post CheckedOk (add_cwe item f n)
add_cwe-CheckedOk item f none h = tt
add_cwe-CheckedOk item f (some n) h =
    check_confidence-CheckedOk item (record f { cwe = some n })
      (record {
        file = h.file;
        message = h.message;
        category = h.category;
        severity = h.severity;
        span = h.span;
        line = h.line;
        confidence = h.confidence;
      })

abbrev Accounts : ℕ → List Finding × List (ℕ × Reason) → Type 0
Accounts n r = All IsWellFormed r.0 × (length r.0 + length r.1 ≡ n)

module _ (unicode : ℕ → Digit) where
  second_entry-SpanOk : (b : Json) (a : Option ℤ) → Post SpanOk (second_entry unicode b a)
  second_entry-SpanOk b none = tt
  second_entry-SpanOk b (some a) =
      Post-bind (λ _. Unit) SpanOk (line_number unicode b) (λ last. ok (both_numbers (some a) last))
        (Post-any (line_number unicode b)) (λ last _. both_numbers-SpanOk (some a) last)

  entries_range-SpanOk : (a b : Json) → Post SpanOk (entries_range unicode a b)
  unfolding entries_range
  entries_range-SpanOk a b =
      Post-bind (λ _. Unit) SpanOk (line_number unicode a) (second_entry unicode b)
        (Post-any (line_number unicode a)) (λ first _. second_entry-SpanOk b first)

  values_range-SpanOk : (vs : Option (List Json)) → Post SpanOk (values_range unicode vs)
  values_range-SpanOk none = tt
  values_range-SpanOk (some []) = tt
  values_range-SpanOk (some (a ∷ [])) = entries_range-SpanOk a a
  values_range-SpanOk (some (a ∷ b ∷ [])) = entries_range-SpanOk a b
  values_range-SpanOk (some (a ∷ b ∷ c ∷ rest)) = tt

  declare_cwe-CheckedOk :
      (item : Fields) (f : Finding) (o : Option Json)
      → IsWellFormed f
      → Post CheckedOk (declare_cwe unicode item f o)
  declare_cwe-CheckedOk item f none h = check_confidence-CheckedOk item f h
  declare_cwe-CheckedOk item f (some v) h = add_cwe-CheckedOk item f (cwe_of unicode v) h

  check_span-CheckedOk :
      (item : Fields) (path message category severity : Text) (r : Option (ℕ × ℕ) × Reason)
      → is_empty path ≡ false
      → is_empty message ≡ false
      → one_of finding_categories category ≡ true
      → one_of severities severity ≡ true
      → SpanOk r
      → Post CheckedOk (check_span unicode item path message category severity r)
  unfolding check_span check_cwe
  check_span-CheckedOk item path message category severity (none, reason) p m c s h = tt
  check_span-CheckedOk item path message category severity (some span, reason) p m c s h =
      declare_cwe-CheckedOk item _ (declared_cwe (present (get (codes "cwe") item))) (record {
        file = p;
        message = m;
        category = c;
        severity = s;
        span = h;
        line = refl;
        confidence = tt;
      })

  fields-CheckedOk : (item : Fields) → Post CheckedOk (validate_fields unicode item)
  unfolding validate_fields line_range_of
  fields-CheckedOk item =
      let path = text_of (get (codes "file") item) in
      let message = text_of (get (codes "message") item) in
      let category = respell category_spellings (lower (text_of (get (codes "category") item))) in
      let severity = lower (text_of (get (codes "severity") item)) in
      elim (Bool-cases (is_empty path)) [
        | inl p ↦ rw p tt
        | inr p ↦ rw p elim (Bool-cases (is_empty message)) [
          | inl m ↦ rw m tt
          | inr m ↦ rw m elim (Bool-cases (one_of finding_categories category)) [
            | inr c ↦ rw c tt
            | inl c ↦ rw c elim (Bool-cases (one_of severities severity)) [
              | inr s ↦ rw s tt
              | inl s ↦ rw s (
                  Post-bind SpanOk CheckedOk (values_range unicode (range_value item))
                    (check_span unicode item path message category severity)
                    (values_range-SpanOk (range_value item))
                    (λ r h. check_span-CheckedOk item path message category severity r p m c s h))
            ]
          ]
        ]
      ]

  item-CheckedOk : (item : Json) → Post CheckedOk (validate unicode item)
  unfolding validate
  item-CheckedOk (obj item) = fields-CheckedOk item
  item-CheckedOk (arr item) = tt
  item-CheckedOk (str item) = tt
  item-CheckedOk (bool item) = tt
  item-CheckedOk (int item) = tt
  item-CheckedOk (real item) = tt
  item-CheckedOk null = tt

  -- Every finding that the validation lets through names a file and says something, has a
  -- category and a severity of the declared vocabularies, 1 ≤ start ≤ end ≤ 1000000 as its lines
  -- with the first as its line, and a confidence, where it has one, between 0 and 1.
  pub validate-IsWellFormed :
      (item : Json) (f : Finding) → validate unicode item ≡ ok (accepted f) → IsWellFormed f
  validate-IsWellFormed item f e = subst (Post CheckedOk) e (item-CheckedOk item)

  add_checked-Accounts :
      (index n : ℕ) (checked : Checked) (rest : List Finding × List (ℕ × Reason))
      → CheckedOk checked
      → Accounts n rest
      → Accounts (suc n) (add_checked index checked rest)
  add_checked-Accounts index n (accepted f) rest h r = ((h, r.0), (omega arith))
  add_checked-Accounts index n (dropped reason) rest h r = (r.0, (omega arith))

  collect-Accounts :
      (index : ℕ) (items : List Json) → Post (Accounts (length items)) (collect unicode index items)
  unfolding collect
  collect-Accounts index [] = (tt, refl)
  collect-Accounts index (item ∷ items) =
      Post-bind CheckedOk (Accounts (suc (length items))) (validate unicode item) _
        (item-CheckedOk item)
        (λ checked h.
          Post-bind (Accounts (length items)) (Accounts (suc (length items)))
            (collect unicode (index + 1) items) (λ rest. ok (add_checked index checked rest))
            (collect-Accounts (index + 1) items)
            (λ rest r. add_checked-Accounts index (length items) checked rest h r))

  -- Where `parse_findings` returns, its findings and its problem reports are as many as the
  -- response has items, and each finding is one that the later stages may rely on.
  pub collect-accounts :
      (index : ℕ) (items : List Json) (findings : List Finding) (errors : List (ℕ × Reason))
      → collect unicode index items ≡ ok (findings, errors)
      → All IsWellFormed findings × (length findings + length errors ≡ length items)
  collect-accounts index items findings errors e =
      subst (Post (Accounts (length items))) e (collect-Accounts index items)
