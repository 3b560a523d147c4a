-- ===== src/Control/Examples.antt =====
-- Runs of a control, and the theorems on them.
use code_analyzer.Prelude.{◌≤◌, ◌≡◌, refl, false, none, some, List, [], ◌∷◌, foldl}
use code_analyzer.Prelude.Text.{codes}
use code_analyzer.Prelude.Dict.{lookup, insert, without}
use code_analyzer.Control
use code_analyzer.Control.{
  Control, Request, Decision, static, llm, new, ok, decided, cancel_run, skip, pause,
}
use code_analyzer.Control.Semaphore.{Call, enter, leave, resize, apply, open_site}
use code_analyzer.Control.Semaphore.Bounds.{highest, inside-le-highest}
use code_analyzer.Control.Checkpoint.{Word, look_once}
use code_analyzer.Control.Decisions.{look, settle, ask, decide, announce_decision}
use code_analyzer.Control.Trace
use code_analyzer.Control.Trace.{run, perform}
use code_analyzer.Control.Trace.Persistence.{cancel_run-lasts}

abbrev calls : List Call
calls = enter false ∷ enter false ∷ resize 1 ∷ enter false ∷ leave ∷ enter false ∷ []

inside-le-highest_example : (foldl apply (open_site 2) calls).inside ≤ highest 2 calls
inside-le-highest_example = inside-le-highest 2 calls

cancel_run-lasts_example :
    look_once static (codes "splint") none (
      run (cancel_run (codes "operator") (new 2)) (Trace.Call.pause static (codes "operator") ∷ []))
    ≡ some Word.cancelled
cancel_run-lasts_example =
    cancel_run-lasts (codes "operator") (new 2) (Trace.Call.pause static (codes "operator") ∷ [])
      static (codes "splint") none

abbrev request : Request
request = record {
  id = codes "d1";
  kind = codes "patch";
  summary = codes "add include paths";
  items = 2;
  round = 1;
  preselected = 0 ∷ [];
}

abbrev answer : Decision
answer = record {
  answer = Control.apply;
  selected = 1 ∷ [];
  decided_by = codes "operator";
  note = [];
}

-- The wait is over in front of the announcement: the journal holds the request only.
abbrev settled : Control
settled = record (new 1) { journal = Control.requested request ∷ [] }

returned_unannounced :
    look request false
      (run (new 1) (Trace.Call.ask request ∷ Trace.Call.decide (codes "d1") answer ∷ []))
    ≡ some (answer, settled)
unfolding look settle ask decide announce_decision perform lookup insert without
returned_unannounced = refl
