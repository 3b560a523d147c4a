-- ===== src/Coverage.antt =====
-- llm/units.py, `coverage_report`: what the results of the scanners cover of a plan. The ratios
-- are pairs of what was scanned and of the total; the quotients of these are left out.
use code_analyzer.Prelude.{
  ℕ, zero, suc, ◌+◌, ◌||◌, ◌&&◌, Bool, true, false, not, Option, none, some, List, [], ◌∷◌, ◌++◌,
  map, foldl, if◌then◌else◌, length, any, all, sum_by,
}
use code_analyzer.Prelude.Text.{Text, codes, text_eq, text_lt}
use code_analyzer.Prelude.Dict.{lookup, insert}
use code_analyzer.Prelude.Sort.{sorted}
pub mod Accounts
mod Examples

-- The fields of a planned unit that the report reads; `low_confidence` is the test of its
-- `parse_confidence`.
pub record PlannedUnit : Type 0 where
  unit_id : Text
  path : Text
  is_function : Bool
  byte_length : ℕ
  risk_tier : Text
  low_confidence : Bool

-- The fields of a file's record.
pub record PlannedFile : Type 0 where
  readable : Bool
  size : ℕ

pub record ScanPlan : Type 0 where
  units : List PlannedUnit
  files : List PlannedFile

pub record Result : Type 0 where
  unit_id : Text
  producer : Text
  status : Text

-- A value of `per_scanner`, and of `scanner_files` with it.
pub record Bucket : Type 0 where
  units : ℕ
  functions : ℕ
  bytes : ℕ
  paths : List Text

-- The variables of the first loop.
pub record Tally : Type 0 where
  outcomes : List (Text × List Text)
  per_scanner : List (Text × Bucket)
  completed : List Text

unfoldable pub empty_bucket : Bucket
empty_bucket = record { units = 0; functions = 0; bytes = 0; paths = [] }

unfoldable pub has_text : Text → List Text → Bool
has_text t ts = any (text_eq t) ts

-- `set.add`
unfoldable pub add : Text → List Text → List Text
unfolding has_text
add t ts = if has_text t ts then ts else t ∷ ts

-- `by_id.get(unit_id)`: the last of the units with the id.
unfoldable pub unit_with : Text → List PlannedUnit → Option PlannedUnit
unit_with id [] = none
unit_with id (u ∷ units) =
    let rest = unit_with id units in
    elim rest [ some v ↦ some v | none ↦ if text_eq u.unit_id id then some u else none ]

unfoldable pub bucket_of : Text → List (Text × Bucket) → Bucket
unfolding empty_bucket
bucket_of producer buckets = elim (lookup producer buckets) [ none ↦ empty_bucket | some b ↦ b ]

unfoldable pub one_if : Bool → ℕ
one_if true = 1
one_if false = 0

unfoldable pub add_unit : PlannedUnit → Bucket → Bucket
unfolding one_if add
add_unit u b = record {
  units = b.units + 1;
  functions = b.functions + one_if u.is_function;
  bytes = b.bytes + u.byte_length;
  paths = add u.path b.paths;
}

-- `outcomes.get(id, ())`
unfoldable pub statuses_of : Text → List (Text × List Text) → List Text
statuses_of id outcomes = elim (lookup id outcomes) [ none ↦ [] | some s ↦ s ]

-- The rest of the body for a unit of the plan.
unfoldable pub add_outcome : PlannedUnit → Tally → Result → Tally
unfolding bucket_of add_unit add statuses_of
add_outcome u t r =
    let statuses = statuses_of r.unit_id t.outcomes in
    let outcomes = insert r.unit_id (statuses ++ r.status ∷ []) t.outcomes in
    if text_eq r.status (codes "completed")
    then record {
      outcomes = outcomes;
      per_scanner =
          insert r.producer (add_unit u (bucket_of r.producer t.per_scanner)) t.per_scanner;
      completed = add r.unit_id t.completed;
    }
    else record t { outcomes = outcomes }

-- The body of the first loop.
unfoldable pub add_result : List PlannedUnit → Tally → Result → Tally
unfolding unit_with add_outcome
add_result units t r = elim (unit_with r.unit_id units) [ none ↦ t | some u ↦ add_outcome u t r ]

-- The first loop, from the scanners that are asked for.
unfoldable pub tally : List PlannedUnit → List Text → List Result → Tally
unfolding add_result empty_bucket
tally units scanners results =
    foldl (add_result units)
      (record {
        outcomes = [];
        per_scanner = map (λ s. (s, empty_bucket)) scanners;
        completed = [];
      })
      results

-- The units of one path are all completed.
unfoldable pub all_completed : List Text → Text → List PlannedUnit → Bool
unfolding has_text
all_completed completed path units =
    all (λ u. not (text_eq u.path path) || has_text u.unit_id completed) units

unfoldable pub paths_of : List PlannedUnit → List Text
unfolding add
paths_of [] = []
paths_of (u ∷ units) = add u.path (paths_of units)

-- The dict `tiers`: planned and scanned.
abbrev pub Tiers : Type 0
Tiers = List (Text × ℕ × ℕ)

unfoldable pub add_tier : Text → ℕ → Tiers → Tiers
add_tier tier scanned [] = (tier, 1, scanned) ∷ []
add_tier tier scanned ((t, p, s) ∷ tiers) =
    if text_eq t tier
    then (t, p + 1, s + scanned) ∷ tiers
    else (t, p, s) ∷ add_tier tier scanned tiers

-- `RISK_TIERS`
unfoldable pub risk_tiers : List Text
risk_tiers = codes "critical" ∷ codes "high" ∷ codes "medium" ∷ codes "low" ∷ []

unfoldable pub tiers_of : List Text → List PlannedUnit → Tiers
unfolding add_tier one_if has_text risk_tiers
tiers_of completed units =
    foldl (λ tiers u. add_tier u.risk_tier (one_if (has_text u.unit_id completed)) tiers)
      (map (λ t. (t, 0, 0)) risk_tiers) units

-- What `_reason` returns.
pub data Reason : Type 0 where
  unscheduled failed timed_out interrupted no_result : Reason

-- `_reason`
unfoldable pub reason_of : List Text → Reason
unfolding has_text
reason_of [] = no_result
reason_of (s ∷ statuses) =
    if has_text (codes "interrupted") (s ∷ statuses)
    then interrupted
    else if has_text (codes "failed") (s ∷ statuses)
    then failed
    else if has_text (codes "timed_out") (s ∷ statuses)
    then timed_out
    else if has_text (codes "unscheduled") (s ∷ statuses)
    then unscheduled
    else failed

-- The dict `reasons`, in the order of `_UNSCANNED_REASONS`.
pub record Reasons : Type 0 where
  unscheduled_units : ℕ
  failed_units : ℕ
  timed_out_units : ℕ
  interrupted_units : ℕ
  no_result_units : ℕ
  parse_confidence_low : ℕ
  unreadable : ℕ

unfoldable pub add_reason : Reason → Reasons → Reasons
add_reason unscheduled r = record r { unscheduled_units = r.unscheduled_units + 1 }
add_reason failed r = record r { failed_units = r.failed_units + 1 }
add_reason timed_out r = record r { timed_out_units = r.timed_out_units + 1 }
add_reason interrupted r = record r { interrupted_units = r.interrupted_units + 1 }
add_reason no_result r = record r { no_result_units = r.no_result_units + 1 }

unfoldable pub unscanned : Tally → PlannedUnit → Reasons → Reasons
unfolding has_text add_reason reason_of statuses_of
unscanned t u r =
    if has_text u.unit_id t.completed
    then r
    else add_reason (reason_of (statuses_of u.unit_id t.outcomes)) r

unfoldable pub add_unscanned : Tally → Reasons → PlannedUnit → Reasons
unfolding unscanned one_if
add_unscanned t r u = record (unscanned t u r) {
  parse_confidence_low = (unscanned t u r).parse_confidence_low + one_if u.low_confidence;
}

unfoldable pub no_reasons : Reasons
no_reasons = record {
  unscheduled_units = 0;
  failed_units = 0;
  timed_out_units = 0;
  interrupted_units = 0;
  no_result_units = 0;
  parse_confidence_low = 0;
  unreadable = 0;
}

unfoldable pub reasons_of : Tally → ScanPlan → Reasons
unfolding add_unscanned one_if no_reasons
reasons_of t plan = record (foldl (add_unscanned t) no_reasons plan.units) {
  unreadable = sum_by (λ f. one_if (not f.readable)) plan.files;
}

pub record Report : Type 0 where
  files : ℕ × ℕ
  functions : ℕ × ℕ
  bytes : ℕ × ℕ
  by_scanner : List (Text × Bucket)
  tiers : Tiers
  reasons : Reasons

-- The dict that `coverage_report` returns.
unfoldable pub report_of : ScanPlan → Tally → Report
unfolding all_completed paths_of tiers_of reasons_of one_if has_text
report_of plan t =
    let done = λ (u : PlannedUnit). has_text u.unit_id t.completed in
    record {
      files = (
        sum_by (λ p. one_if (all_completed t.completed p plan.units)) (paths_of plan.units),
        length plan.files,
      );
      functions = (
        sum_by (λ u. one_if (u.is_function && done u)) plan.units,
        sum_by (λ u. one_if u.is_function) plan.units,
      );
      bytes = (
        sum_by (λ u. if done u then u.byte_length else 0) plan.units,
        sum_by (λ f. f.size) plan.files,
      );
      by_scanner = sorted (λ a b. text_lt a.0 b.0) t.per_scanner;
      tiers = tiers_of t.completed plan.units;
      reasons = reasons_of t plan;
    }

-- `coverage_report`. A tier that is not declared makes its last `sorted` raise, `none` here; the
-- declared ones stand in order.
unfoldable pub coverage_report : ScanPlan → List Text → List Result → Option Report
unfolding tally report_of has_text risk_tiers
coverage_report plan scanners results =
    if all (λ u. has_text u.risk_tier risk_tiers) plan.units
    then some (report_of plan (tally plan.units scanners results))
    else none
