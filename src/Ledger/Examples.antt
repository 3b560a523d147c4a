-- ===== src/Ledger/Examples.antt =====
-- Two writers on one ledger file, one of them killed, and a call that was left open.
use code_analyzer.Prelude.{ℕ, ◌≡◌, List, [], ◌∷◌, ◌++◌, map, foldl, none, Has}
use code_analyzer.Prelude.Text.{Text, codes}
use code_analyzer.Ledger.{
  Record, whole, torn, File, fresh, within, unended, Event, call_started, call_finished, events,
  reconcile, read, call, kill, Step, step, start,
}
use code_analyzer.Ledger.Unique.{IsIncreasing, run-IsIncreasing}
use code_analyzer.Ledger.Reconcile.{reconcile-closes}

abbrev width : Record Event → ℕ
width r = 30

abbrev c1 : Text
c1 = codes "C0001"

abbrev steps : List (Step width)
steps =
    call 0 (call_started c1 ∷ [])
    ∷ call 1 (call_finished c1 ∷ call_started (codes "C0002") ∷ [])
    ∷ kill 0 (call_finished c1 ∷ call_started c1 ∷ []) 1 (within 5)
    ∷ kill 1 (call_started c1 ∷ []) 0 unended
    ∷ call 0 (call_started c1 ∷ [])
    ∷ []

run-IsIncreasing_example : IsIncreasing 0 (read (foldl (step width) (start width) steps).file)
run-IsIncreasing_example = run-IsIncreasing width steps

abbrev file : File Event
file = record {
  lines = whole (record { seq = 1; says = call_started c1 }) ∷ torn 4 ∷ [];
  tail = none;
}

reconcile-closes_example :
    let (closed, state) = reconcile width fresh file in
    (events state.1 ≡ events file ++ map call_finished closed)
    × ((id : Text)
        → Has id closed
        → Has (call_started id) (events file) × (Has (call_finished id) (events file) → ⊥))
    × ((id : Text)
        → Has (call_started id) (events state.1)
        → Has (call_finished id) (events state.1))
reconcile-closes_example = reconcile-closes width fresh file
