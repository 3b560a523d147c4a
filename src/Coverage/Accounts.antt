-- ===== src/Coverage/Accounts.antt =====
-- The report accounts for every planned unit once.
use code_analyzer.Prelude.{
  ℕ, ◌+◌, ◌≤◌, ◌≡◌, ◌&&◌, Bool, subst, inl, inr, some, List, [], ◌∷◌, map, foldl, length, all,
  sum_by, Bool-cases, arith,
}
use code_analyzer.Prelude.Text.{Text, text_eq}
use code_analyzer.Coverage.{
  PlannedUnit, ScanPlan, Result, Tally, Tiers, Reason, unscheduled, failed, timed_out, interrupted,
  no_result, Reasons, Report, has_text, one_if, add_tier, tiers_of, risk_tiers, reason_of,
  statuses_of, add_reason, unscanned, add_unscanned, reasons_of, tally, report_of, no_reasons,
  coverage_report,
}

-- The sums of a dict of tiers.
pub planned : Tiers → ℕ
planned tiers = sum_by (λ e. e.1) tiers

pub scanned : Tiers → ℕ
scanned tiers = sum_by (λ e. e.2) tiers

-- The units that have a reason not to be scanned.
pub given_reasons : Reasons → ℕ
given_reasons r =
    r.unscheduled_units + r.failed_units + r.timed_out_units + r.interrupted_units
    + r.no_result_units

planned-add_tier :
    (tier : Text) (n : ℕ) (tiers : Tiers) → planned (add_tier tier n tiers) ≡ planned tiers + 1
unfolding planned add_tier
planned-add_tier tier n [] = omega arith
planned-add_tier tier n ((t, p, s) ∷ tiers) = elim (Bool-cases (text_eq t tier)) [
  | inl e ↦ rw e (omega arith)
  | inr e ↦ rw e (omega (arith, planned-add_tier tier n tiers))
]

scanned-add_tier :
    (tier : Text) (n : ℕ) (tiers : Tiers) → scanned (add_tier tier n tiers) ≡ scanned tiers + n
unfolding scanned add_tier
scanned-add_tier tier n [] = omega arith
scanned-add_tier tier n ((t, p, s) ∷ tiers) = elim (Bool-cases (text_eq t tier)) [
  | inl e ↦ rw e (omega arith)
  | inr e ↦ rw e (omega (arith, scanned-add_tier tier n tiers))
]

given_reasons-add_reason :
    (why : Reason) (r : Reasons) → given_reasons (add_reason why r) ≡ given_reasons r + 1
unfolding given_reasons add_reason
given_reasons-add_reason unscheduled r = omega arith
given_reasons-add_reason failed r = omega arith
given_reasons-add_reason timed_out r = omega arith
given_reasons-add_reason interrupted r = omega arith
given_reasons-add_reason no_result r = omega arith

module _ (completed : List Text) where
  done : PlannedUnit → ℕ
  done u = one_if (has_text u.unit_id completed)

  planned-foldl :
      (units : List PlannedUnit) (tiers : Tiers)
      → planned (foldl (λ tiers u. add_tier u.risk_tier (done u) tiers) tiers units)
        ≡ planned tiers + length units
  planned-foldl [] tiers = omega arith
  planned-foldl (u ∷ units) tiers = omega (
    arith,
    planned-foldl units (add_tier u.risk_tier (done u) tiers),
    planned-add_tier u.risk_tier (done u) tiers,
  )

  scanned-foldl :
      (units : List PlannedUnit) (tiers : Tiers)
      → scanned (foldl (λ tiers u. add_tier u.risk_tier (done u) tiers) tiers units)
        ≡ scanned tiers + sum_by done units
  scanned-foldl [] tiers = omega arith
  scanned-foldl (u ∷ units) tiers = omega (
    arith,
    scanned-foldl units (add_tier u.risk_tier (done u) tiers),
    scanned-add_tier u.risk_tier (done u) tiers,
  )

given_reasons-add_unscanned :
    (t : Tally) (r : Reasons) (u : PlannedUnit)
    → given_reasons (add_unscanned t r u) + done t.completed u ≡ given_reasons r + 1
unfolding add_unscanned unscanned done one_if given_reasons
given_reasons-add_unscanned t r u = elim (Bool-cases (has_text u.unit_id t.completed)) [
  | inl e ↦ rw e (omega arith)
  | inr e ↦
      rw e
        (omega (arith, given_reasons-add_reason (reason_of (statuses_of u.unit_id t.outcomes)) r))
]

given_reasons-foldl :
    (t : Tally) (units : List PlannedUnit) (r : Reasons)
    → given_reasons (foldl (add_unscanned t) r units) + sum_by (done t.completed) units
      ≡ given_reasons r + length units
given_reasons-foldl t [] r = omega arith
given_reasons-foldl t (u ∷ units) r =
    omega
      (arith, given_reasons-foldl t units (add_unscanned t r u), given_reasons-add_unscanned t r u)

functions-le :
    (p q : PlannedUnit → Bool) (units : List PlannedUnit)
    → sum_by (λ u. one_if (p u && q u)) units ≤ sum_by (λ u. one_if (p u)) units
unfolding one_if
functions-le p q [] = omega arith
functions-le p q (u ∷ units) = ground (arith, functions-le p q units)

-- Every planned unit is counted once, in a tier as planned, and as scanned there or under one
-- reason; and no more functions are scanned than planned.
pub record Accounts (plan : ScanPlan) (r : Report) : Type 0 where
  all_planned : planned r.tiers ≡ length plan.units
  all_explained : scanned r.tiers + given_reasons r.reasons ≡ length plan.units
  functions_within : r.functions.0 ≤ r.functions.1

report_of-Accounts : (plan : ScanPlan) (t : Tally) → Accounts plan (report_of plan t)
unfolding report_of tiers_of reasons_of done given_reasons risk_tiers planned scanned
report_of-Accounts plan t = record {
  all_planned =
      omega (arith, planned-foldl t.completed plan.units (map (λ t. (t, 0, 0)) risk_tiers));
  all_explained = omega (
    arith,
    scanned-foldl t.completed plan.units (map (λ t. (t, 0, 0)) risk_tiers),
    given_reasons-foldl t plan.units no_reasons,
  );
  functions_within =
      functions-le (λ u. u.is_function) (λ u. has_text u.unit_id t.completed) plan.units;
}

-- The report on any results, also of units that the plan does not have and of one unit several
-- times, accounts for each planned unit once.
pub coverage_report-Accounts :
    (plan : ScanPlan) (scanners : List Text) (results : List Result) (r : Report)
    → coverage_report plan scanners results ≡ some r
    → Accounts plan r
unfolding coverage_report
coverage_report-Accounts plan scanners results r h =
    let t = tally plan.units scanners results in
    elim (Bool-cases (all (λ u. has_text u.risk_tier risk_tiers) plan.units)) [
      | inl e ↦
          let same : report_of plan t ≡ r = let k = rw e at h in cc in
          subst (Accounts plan) same (report_of-Accounts plan t)
      | inr e ↦ absurd (let k = rw e at h in cc)
    ]
