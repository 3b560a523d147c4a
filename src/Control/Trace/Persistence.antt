-- ===== src/Control/Trace/Persistence.antt =====
-- What the operator has said of a run holds for the rest of it, whatever is called then.
use code_analyzer.Prelude.{
  ◌≡◌, Bool, true, false, Option, none, some, List, [], ◌∷◌, arith, ◌⊎◌, ◌∙◌, ap, All,
}
use code_analyzer.Prelude.Text.{Text, text_eq_refl}
use code_analyzer.Prelude.Dict.{lookup}
use code_analyzer.Control.{
  Control, Lane, static, llm, unknown_lane, Request, Decision, Pending, ok, cancel_run, skip, pause,
  resume, toggle_pause, has_name, set_jobs, skip_unit, request_retry, drain_retries,
}
use code_analyzer.Control.Decisions.{
  look_at, settle, look, decide, announce_decision, ask, auto_decide, new_request_id,
  announce_stored,
}
use code_analyzer.Control.Checkpoint.{Word, look_once, must_wait, word_at}
use code_analyzer.Control.Trace.{Call, perform, run, after_look, after_with}

-- A look and an answer leave the lanes, the skips and the cancellation alone.
record SameOrders (a b : Control) : Type 0 where
  cancelled : a.cancelled ≡ b.cancelled
  skips : a.skips ≡ b.skips
  static_paused : a.static_paused ≡ b.static_paused
  llm_paused : a.llm_paused ≡ b.llm_paused

settle-SameOrders : (r : Request) (d : Decision) (c : Control) → SameOrders (settle r d c) c
unfolding settle announce_decision
settle-SameOrders r d c = ground arith

look_at-SameOrders :
    (r : Request) (late : Bool) (c : Control) (o : Option Pending)
    → SameOrders (after_look c (look_at r late c o)) c
unfolding look_at settle announce_decision
look_at-SameOrders r late c o = ground arith

decide-SameOrders :
    (id : Text) (d : Decision) (c : Control) → SameOrders (after_with c (decide id d c)) c
unfolding decide announce_decision
decide-SameOrders id d c = ground arith

-- What no later call takes back.
record Lasts (name : Text) (a b : Control) : Type 0 where
  cancelled : a.cancelled ≡ true → b.cancelled ≡ true
  skipped : has_name name a.skips ≡ true → has_name name b.skips ≡ true

SameOrders→Lasts : (name : Text) (a b : Control) → SameOrders b a → Lasts name a b
SameOrders→Lasts name a b h = record {
  cancelled = λ e. h.cancelled ∙ e;
  skipped = λ e. ap (has_name name) h.skips ∙ e;
}

perform-Lasts : (name : Text) (c : Control) (call : Call) → Lasts name c (perform c call)
unfolding perform cancel_run pause resume toggle_pause skip skip_unit set_jobs request_retry
    drain_retries ask auto_decide new_request_id announce_decision announce_stored
perform-Lasts name c (Call.cancel by) = record {
  cancelled = λ e. ground arith;
  skipped = λ e. ground arith;
}
perform-Lasts name c (Call.skip n by) = record {
  cancelled = λ e. ground arith;
  skipped = λ e. ground arith;
}
perform-Lasts name c (Call.look r late) =
    SameOrders→Lasts name c _ (unfold look in look_at-SameOrders r late c (lookup r.id c.pending))
perform-Lasts name c (Call.decide id d) = SameOrders→Lasts name c _ (decide-SameOrders id d c)
perform-Lasts name c (Call.announce_stored o d) = record {
  cancelled = λ e. ground arith;
  skipped = λ e. ground arith;
}
perform-Lasts name c (Call.drain_retries n) = record {
  cancelled = λ e. ground arith;
  skipped = λ e. ground arith;
}
perform-Lasts name c (Call.set_jobs l n by) = record {
  cancelled = λ e. ground arith;
  skipped = λ e. ground arith;
}
perform-Lasts name c (Call.pause l by) = record {
  cancelled = λ e. ground arith;
  skipped = λ e. ground arith;
}
perform-Lasts name c (Call.resume l by) = record {
  cancelled = λ e. ground arith;
  skipped = λ e. ground arith;
}
perform-Lasts name c (Call.toggle_pause l by) = record {
  cancelled = λ e. ground arith;
  skipped = λ e. ground arith;
}
perform-Lasts name c _ = record { cancelled = λ e. e; skipped = λ e. e }

run-Lasts :
    (name : Text) (a c : Control) (calls : List Call) → Lasts name a c → Lasts name a (run c calls)
run-Lasts name a c [] h = h
run-Lasts name a c (call ∷ calls) h =
    let step = perform-Lasts name c call in
    run-Lasts name a (perform c call) calls (record {
      cancelled = λ e. step.cancelled (h.cancelled e);
      skipped = λ e. step.skipped (h.skipped e);
    })

Lasts-refl : (name : Text) (c : Control) → Lasts name c c
Lasts-refl name c = record { cancelled = λ e. e; skipped = λ e. e }

-- Once the run is cancelled, every checkpoint of every lane answers `cancelled` at once, whatever
-- was called in between.
pub cancel_run-lasts :
    (by : Text) (c : Control) (calls : List Call) (lane : Lane) (producer : Text)
    (unit : Option Text)
    → look_once lane producer unit (run (cancel_run by c) calls) ≡ some Word.cancelled
unfolding look_once must_wait word_at
cancel_run-lasts by c calls lane producer unit =
    let first : (cancel_run by c).cancelled ≡ true = (unfold cancel_run in ground arith) in
    let last = (run-Lasts [] (cancel_run by c) _ calls (Lasts-refl [] _)).cancelled first in
    ground arith

-- Once a producer is skipped, no checkpoint lets a unit of it run: it waits, or says that the
-- producer is skipped, or that the run is cancelled, whatever was called in between.
pub skip-lasts :
    (name by : Text) (c : Control) (calls : List Call) (lane : Lane) (unit : Option Text)
    → let answer = look_once lane name unit (run (skip name by c) calls) in
      (answer ≡ none) ⊎ (answer ≡ some Word.skip_producer) ⊎ (answer ≡ some Word.cancelled)
unfolding look_once must_wait word_at
skip-lasts name by c calls lane unit =
    let first : has_name name (skip name by c).skips ≡ true =
      (unfold skip in ground (arith, text_eq_refl name)) in
    let last = (run-Lasts name (skip name by c) _ calls (Lasts-refl name _)).skipped first in
    ground arith

abbrev same_lane : Lane → Lane → Bool
same_lane static static = true
same_lane llm llm = true
same_lane _ _ = false

-- The calls that end a pause of the lane.
abbrev pub wakes : Lane → Call → Bool
wakes lane (Call.cancel by) = true
wakes lane (Call.resume l by) = same_lane lane l
wakes lane (Call.toggle_pause l by) = same_lane lane l
wakes lane _ = false

SameOrders-must_wait :
    (lane : Lane) (a b : Control)
    → SameOrders b a
    → must_wait lane a ≡ true
    → must_wait lane b ≡ true
unfolding must_wait
SameOrders-must_wait static a b h e = ground (arith, h.cancelled, h.static_paused)
SameOrders-must_wait llm a b h e = ground (arith, h.cancelled, h.llm_paused)
SameOrders-must_wait (unknown_lane n) a b h e = absurd (cc)

perform-must_wait :
    (lane : Lane) (c : Control) (call : Call)
    → wakes lane call ≡ false
    → must_wait lane c ≡ true
    → must_wait lane (perform c call) ≡ true
unfolding must_wait perform cancel_run pause resume toggle_pause skip skip_unit set_jobs
    request_retry drain_retries ask auto_decide new_request_id announce_decision announce_stored
perform-must_wait lane c (Call.look r late) w e =
    SameOrders-must_wait lane c _
      (unfold look in look_at-SameOrders r late c (lookup r.id c.pending)) e
perform-must_wait lane c (Call.decide id d) w e =
    SameOrders-must_wait lane c _ (decide-SameOrders id d c) e
perform-must_wait lane c _ w e = ground arith

run-must_wait :
    (lane : Lane) (c : Control) (calls : List Call)
    → All (λ call. wakes lane call ≡ false) calls
    → must_wait lane c ≡ true
    → must_wait lane (run c calls) ≡ true
run-must_wait lane c [] w e = e
run-must_wait lane c (call ∷ calls) w e =
    run-must_wait lane (perform c call) calls w.1 (perform-must_wait lane c call w.0 e)

pause-must_wait :
    (lane : Lane) (by : Text) (c c' : Control)
    → c.cancelled ≡ false
    → pause lane by c ≡ ok c'
    → must_wait lane c' ≡ true
unfolding must_wait pause
pause-must_wait static by c c' n e = ground arith
pause-must_wait llm by c c' n e = ground arith
pause-must_wait (unknown_lane l) by c c' n e = absurd (cc)

-- After a pause of a lane in a run that is not cancelled, no checkpoint of the lane answers until
-- a call resumes or toggles that lane or cancels the run.
pub pause-lasts :
    (lane : Lane) (by : Text) (c c' : Control) (calls : List Call) (producer : Text)
    (unit : Option Text)
    → c.cancelled ≡ false
    → pause lane by c ≡ ok c'
    → All (λ call. wakes lane call ≡ false) calls
    → look_once lane producer unit (run c' calls) ≡ none
unfolding look_once
pause-lasts lane by c c' calls producer unit n e w =
    rw (run-must_wait lane c' calls w (pause-must_wait lane by c c' n e))
