-- ===== src/Status/Ladder.antt =====
-- What the status words and the exit codes say.
use code_analyzer.Prelude.{
  ◌+◌, ◌≡◌, refl, Bool, true, false, ◌||◌, not, Option, some, List, [], ◌∷◌, any, all, arith, ◌⊎◌,
}
use code_analyzer.Prelude.Text.{is_empty}
use code_analyzer.Status.{
  Status, completed, complete, not_applicable, disabled, other, UnitState, ToolState,
  aggregate_units, counts, count, overall, is_completed, is_interrupted, is_not_applicable, keep,
}

any-all :
    (units : List UnitState)
    → all (λ u. is_completed u.status) units ≡ true
    → any (λ u. is_interrupted u.status) units ≡ false
any-all [] h = refl
any-all (u ∷ units) h = ground (arith, any-all units)

-- A tool's units aggregate to `completed` exactly when the tool applies, there is a unit, and every
-- unit is completed.
pub aggregate_units-completed :
    (units : List UnitState) (applicable : Bool)
    → (aggregate_units units applicable ≡ completed
        → (applicable ≡ true)
          × (is_empty units ≡ false)
          × (all (λ u. is_completed u.status) units ≡ true))
      × ((applicable ≡ true)
            × (is_empty units ≡ false)
            × (all (λ u. is_completed u.status) units ≡ true)
          → aggregate_units units applicable ≡ completed)
unfolding aggregate_units
aggregate_units-completed units applicable =
    (λ e. ground arith, λ h. ground (arith, any-all units h.2))

-- The words that a unit can have once it was planned.
abbrev pub is_unit_word : Status → Bool
is_unit_word (other _) = false
is_unit_word complete = false
is_unit_word not_applicable = false
is_unit_word disabled = false
is_unit_word _ = true

-- Every planned unit is counted once: as started or as unscheduled, and a started one as
-- completed, failed, timed out or interrupted, as long as each unit has one of the unit words.
pub counts-planned :
    (units : List UnitState)
    → all (λ u. is_unit_word u.status) units ≡ true
    → let c = counts units in
      (c.planned ≡ c.started + c.unscheduled)
      × (c.started ≡ c.completed + c.failed + c.timed_out + count is_interrupted units)
unfolding counts
counts-planned [] h = (refl, refl)
counts-planned (u ∷ units) h = ground (arith, counts-planned units)

-- The tests of `overall` on the tools that apply, read off the requested ones.
keep-completed :
    (tools : List ToolState)
    → all (λ t. is_completed t.status || is_not_applicable t.status) tools ≡ true
    → all (λ t. is_completed t.status) (keep (λ t. not (is_not_applicable t.status)) tools) ≡ true
keep-completed [] h = refl
keep-completed (t ∷ tools) h = ground (arith, keep-completed tools)

some_completed :
    (tools : List ToolState)
    → all (λ t. is_completed t.status || is_not_applicable t.status) tools ≡ true
    → not (is_empty (keep (λ t. not (is_not_applicable t.status)) tools))
      ≡ any (λ t. is_completed t.status) tools
some_completed [] h = refl
some_completed (t ∷ tools) h = ground (arith, some_completed tools)

abbrev pub requested : List ToolState → List ToolState
requested = keep (λ t. t.requested)

-- What an exit code of 0 stands for.
pub record IsClean (tools : List ToolState) (stable : Option Bool) (export review : Status)
    (scope : Bool) : Type 0 where
  pub none_interrupted : any (λ t. is_interrupted t.status) (requested tools) ≡ false
  pub one_completed : any (λ t. is_completed t.status) (requested tools) ≡ true
  pub all_settled :
      all (λ t. is_completed t.status || is_not_applicable t.status) (requested tools) ≡ true
  pub source_stable : stable ≡ some true
  pub exported : (export ≡ completed) ⊎ (export ≡ disabled)
  pub reviewed : (review ≡ completed) ⊎ (review ≡ disabled)
  pub scope_complete : scope ≡ true

-- The run exits with 0 exactly when no requested tool was interrupted, one of them completed, each
-- completed or does not apply, the source was stable, the scope complete, and the export and the
-- review are completed or off.
pub overall-zero :
    (tools : List ToolState) (stable : Option Bool) (export review : Status) (scope : Bool)
    → ((overall tools stable export review scope).1 ≡ 0 → IsClean tools stable export review scope)
      × (IsClean tools stable export review scope
          → (overall tools stable export review scope).1 ≡ 0)
unfolding overall
overall-zero tools stable export review scope = (
  λ h. ground (arith, some_completed (requested tools)),
  λ c. ground (
    arith,
    some_completed (requested tools),
    keep-completed (requested tools),
    c.none_interrupted,
    c.one_completed,
    c.all_settled,
    c.source_stable,
    c.exported,
    c.reviewed,
    c.scope_complete,
  ),
)
