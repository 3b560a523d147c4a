-- ===== src/Status.antt =====
-- code_analyzer/status.py: the status words of units, tools and runs, and the exit codes.
pub mod Ladder
mod Examples
use code_analyzer.Prelude.{
  ℕ, ◌+◌, Bool, true, false, ◌&&◌, ◌||◌, not, Option, none, some, List, [], ◌∷◌, ltb, if◌then◌else◌,
  any, all, length,
}
use code_analyzer.Prelude.Text.{Text, is_empty}

-- The words of `NODE_STATES` that the ladder compares with, and any other word.
pub data Status : Type 0 where
  completed complete partial timed_out failed interrupted unscheduled : Status
  not_applicable disabled : Status
  other : Text → Status

pub record UnitState : Type 0 where
  pub status : Status
  pub valid_report : Bool

abbrev pub is_completed : Status → Bool
is_completed completed = true
is_completed _ = false

abbrev pub is_interrupted : Status → Bool
is_interrupted interrupted = true
is_interrupted _ = false

abbrev pub is_not_applicable : Status → Bool
is_not_applicable not_applicable = true
is_not_applicable _ = false

abbrev is_disabled : Status → Bool
is_disabled disabled = true
is_disabled _ = false

-- `state in {"timed_out", "unscheduled"}`
abbrev is_late : Status → Bool
is_late timed_out = true
is_late unscheduled = true
is_late _ = false

pub aggregate_units : List UnitState → Bool → Status
aggregate_units units applicable =
    if not applicable || is_empty units
    then not_applicable
    else if any (λ u. is_interrupted u.status) units
    then interrupted
    else if all (λ u. is_completed u.status) units
    then completed
    else if any (λ u. u.valid_report) units
    then partial
    else if all (λ u. is_late u.status) units
    then timed_out
    else failed

pub record UnitCounts : Type 0 where
  pub planned : ℕ
  pub started : ℕ
  pub completed : ℕ
  pub failed : ℕ
  pub timed_out : ℕ
  pub unscheduled : ℕ

-- `counter[word]`, for the words that the test accepts
abbrev pub count : (Status → Bool) → List UnitState → ℕ
count p [] = 0
count p (u ∷ units) = (if p u.status then 1 else 0) + count p units

abbrev is_partial : Status → Bool
is_partial partial = true
is_partial _ = false

abbrev is_timed_out : Status → Bool
is_timed_out timed_out = true
is_timed_out _ = false

abbrev is_failed : Status → Bool
is_failed failed = true
is_failed _ = false

abbrev is_unscheduled : Status → Bool
is_unscheduled unscheduled = true
is_unscheduled _ = false

pub counts : List UnitState → UnitCounts
counts units = record {
  planned = length units;
  started =
      count is_completed units
      + count is_partial units
      + count is_timed_out units
      + count is_failed units
      + count is_interrupted units;
  completed = count is_completed units;
  failed = count is_failed units + count is_partial units;
  timed_out = count is_timed_out units;
  unscheduled = count is_unscheduled units;
}

pub record ToolState : Type 0 where
  pub requested : Bool
  pub status : Status
  pub valid_reports : ℕ

abbrev pub keep {ℓ} : {A : Type ℓ} → (A → Bool) → List A → List A
keep p [] = []
keep p (x ∷ xs) = let rest = keep p xs in if p x then x ∷ rest else rest

abbrev is_true : Option Bool → Bool
is_true none = false
is_true (some b) = b

abbrev done_or_off : Status → Bool
done_or_off s = is_completed s || is_disabled s

-- `overall`, with the exit code beside the word
pub overall : List ToolState → Option Bool → Status → Status → Bool → Status × ℕ
overall tools source_stable export_status review_status scope_complete =
    let requested = keep (λ t. t.requested) tools in
    let applicable = keep (λ t. not (is_not_applicable t.status)) requested in
    if any (λ t. is_interrupted t.status) requested
    then (interrupted, 130)
    else if not (is_empty applicable)
        && all (λ t. is_completed t.status) applicable
        && all (λ t. is_completed t.status || is_not_applicable t.status) requested
        && is_true source_stable
        && done_or_off export_status
        && done_or_off review_status
        && scope_complete
    then (complete, 0)
    else if any (λ t. ltb 0 t.valid_reports) requested
    then (partial, 10)
    else (failed, 20)
