-- ===== src/Control/Trace.antt =====
-- A run of `RunControl`: the calls of the operator, the producers and the waiting threads, in the
-- order in which they take the lock. `decide` is two calls:
-- it stores the answer under the lock, and announces it behind the lock.
pub mod Persistence
use code_analyzer.Prelude.{
  ℕ, ◌≡◌, refl, Bool, true, false, Option, none, some, List, [], ◌∷◌, ◌++◌, foldl, All, Has,
  foldl_inv, inl, inr, Bool-cases, Option-cases, if◌then◌else◌, arith,
}
use code_analyzer.Prelude.Text.{Text}
use code_analyzer.Prelude.Dict.{lookup}
use code_analyzer.Control
use code_analyzer.Control.{
  Control, Lane, Request, Decision, Result, ok, value_error, Event, decided, new, announce,
}
use code_analyzer.Control.Decisions

pub data Call : Type 0 where
  cancel : (by : Text) → Call
  pause resume toggle_pause : Lane → (by : Text) → Call
  skip : (name by : Text) → Call
  skip_unit : (producer unit by : Text) → Call
  set_jobs : Lane → ℕ → (by : Text) → Call
  request_retry : (name : Text) → Option (List Text) → (by : Text) → Call
  drain_retries : (name : Text) → Call
  ask : Request → Call
  look : Request → (late : Bool) → Call
  decide : (id : Text) → Decision → Call
  announce_stored : Option Request → Decision → Call
  auto_decide : Request → Decision → Call
  new_request_id : (prefix : Text) → Call

-- A call that raises leaves the record as it was.
abbrev pub after : Control → Result Control → Control
after c (ok c') = c'
after c value_error = c

abbrev pub after_with {ℓ} : {A : Type ℓ} → Control → Result (A × Control) → Control
after_with c (ok (a, c')) = c'
after_with c value_error = c

-- What a thread that looks at the record leaves behind.
abbrev pub after_look : Control → Option (Decision × Control) → Control
after_look c none = c
after_look c (some (d, c')) = c'

unfoldable pub perform : Control → Call → Control
perform c (cancel by) = Control.cancel_run by c
perform c (pause lane by) = after c (Control.pause lane by c)
perform c (resume lane by) = after c (Control.resume lane by c)
perform c (toggle_pause lane by) = after_with c (Control.toggle_pause lane by c)
perform c (skip name by) = Control.skip name by c
perform c (skip_unit producer unit by) = Control.skip_unit producer unit by c
perform c (set_jobs lane n by) = after_with c (Control.set_jobs lane n by c)
perform c (request_retry name ids by) = Control.request_retry name ids by c
perform c (drain_retries name) = (Control.drain_retries name c).1
perform c (ask r) = Decisions.ask r c
perform c (look r late) = after_look c (Decisions.look r late c)
perform c (decide id d) = after_with c (Decisions.decide id d c)
perform c (announce_stored o d) = (Decisions.announce_stored o d c).1
perform c (auto_decide r d) = (Decisions.auto_decide r d c).1
perform c (new_request_id prefix) = (Decisions.new_request_id prefix c).1

-- The record behind a run of calls.
abbrev pub run : Control → List Call → Control
run = foldl perform
