-- ===== src/Control.antt =====
-- `RunControl` of code_analyzer/control.py: pause, skip, jobs, retries and decisions for one run.
-- A method is one step on the record: its critical sections are under one lock, and the
-- announcement that follows them belongs to the same step. The journal holds what `_announce`
-- hands to the listener, without the sentence for people.
pub mod Semaphore
pub mod Checkpoint
pub mod Decisions
pub mod Trace
mod Examples
use code_analyzer.Prelude.{
  ℕ, ◌+◌, Bool, true, false, ◌&&◌, ◌||◌, not, Option, none, some, List, [], ◌∷◌, ◌++◌, min, max,
  ltb, leb, ◌==◌, if◌then◌else◌, any, length,
}
use code_analyzer.Prelude.Text.{Text, text_eq, codes}
use code_analyzer.Prelude.Dict.{lookup, insert, without}
use code_analyzer.Control.Semaphore.{Gate}
use code_analyzer.Control.Semaphore

-- A lane's name; `LANES` has the first two.
pub data Lane : Type 0 where
  static llm : Lane
  unknown_lane : Text → Lane

-- `ANSWERS`; a `Decision` with any other word raises.
pub data Answer : Type 0 where
  apply reject defer : Answer
  unknown_answer : Text → Answer

pub record Request : Type 0 where
  pub id : Text
  pub kind : Text
  pub summary : Text
  pub items : ℕ
  pub round : ℕ
  pub preselected : List ℕ

pub record Decision : Type 0 where
  pub answer : Answer
  pub selected : List ℕ
  pub decided_by : Text
  pub note : Text

pub record Pending : Type 0 where
  pub request : Request
  pub decision : Option Decision

-- The phase and status of an announcement, with the data that name its subject.
pub data Event : Type 0 where
  cancel : (by : Text) → Event
  paused resumed : Lane → (by : Text) → Event
  skipped : (name by : Text) → Event
  skipped_unit : (producer unit by : Text) → Event
  jobs : Lane → (value : ℕ) → (by : Text) → Event
  retry_requested : (name : Text) → List Text → (by : Text) → Event
  requested : Request → Event
  decided : Request → Decision → Event
  expired : (id : Text) → Event

pub record Control : Type 0 where
  pub cancelled : Bool
  pub static_paused : Bool
  pub llm_paused : Bool
  pub skips : List Text
  pub unit_skips : List (Text × Text)
  pub retries : List (Text × Option (List Text))
  pub static_gate : Gate
  pub llm_gate : Gate
  pub pending : List (Text × Pending)
  pub next_id : ℕ
  pub journal : List Event

-- `ValueError`
pub data Result {ℓ} (A : Type ℓ) : Type ℓ where
  ok : A → Result A
  value_error : Result A

abbrev pub new : ℕ → Control
new llm_jobs = record {
  cancelled = false;
  static_paused = false;
  llm_paused = false;
  skips = [];
  unit_skips = [];
  retries = [];
  static_gate = Semaphore.make 1;
  llm_gate = Semaphore.make llm_jobs;
  pending = [];
  next_id = 1;
  journal = [];
}

-- `_announce`
abbrev pub announce : Event → Control → Control
announce e c = record c { journal = c.journal ++ e ∷ [] }

-- `cancel`
pub cancel_run : Text → Control → Control
cancel_run by c =
    let c' = record c { cancelled = true } in if c.cancelled then c' else announce (cancel by) c'

-- `paused`, which answers for an unknown lane too
abbrev pub is_paused : Lane → Control → Bool
is_paused static c = c.static_paused
is_paused llm c = c.llm_paused
is_paused (unknown_lane _) c = false

abbrev set_paused : Lane → Bool → Control → Control
set_paused static b c = record c { static_paused = b }
set_paused llm b c = record c { llm_paused = b }
set_paused (unknown_lane _) b c = c

-- `_check_lane`
abbrev is_lane : Lane → Bool
is_lane (unknown_lane _) = false
is_lane _ = true

pub pause : Lane → Text → Control → Result Control
pause lane by c =
    if is_lane lane
    then ok (
        if is_paused lane c
        then set_paused lane true c
        else announce (paused lane by) (set_paused lane true c))
    else value_error

pub resume : Lane → Text → Control → Result Control
resume lane by c =
    if is_lane lane
    then ok (
        if is_paused lane c
        then announce (resumed lane by) (set_paused lane false c)
        else set_paused lane false c)
    else value_error

abbrev with_answer : Bool → Result Control → Result (Bool × Control)
with_answer b (ok c) = ok (b, c)
with_answer b value_error = value_error

pub toggle_pause : Lane → Text → Control → Result (Bool × Control)
unfolding pause resume
toggle_pause lane by c =
    if is_paused lane c
    then with_answer false (resume lane by c)
    else with_answer true (pause lane by c)

abbrev pub has_name : Text → List Text → Bool
has_name name names = any (text_eq name) names

abbrev pub has_unit : Text → Text → List (Text × Text) → Bool
has_unit producer unit units =
    any (λ (u : Text × Text). text_eq producer u.0 && text_eq unit u.1) units

pub skip : Text → Text → Control → Control
skip name by c =
    if has_name name c.skips
    then c
    else announce (skipped name by) (record c { skips = name ∷ c.skips })

pub skip_unit : Text → Text → Text → Control → Control
skip_unit producer unit by c = announce (skipped_unit producer unit by) (record c {
  unit_skips =
      if has_unit producer unit c.unit_skips then c.unit_skips else (producer, unit) ∷ c.unit_skips;
})

-- `LLM_JOBS_CEILING`, and the bound of the static lane
abbrev pub ceiling : Lane → ℕ
ceiling llm = 8
ceiling _ = 64

abbrev pub gate : Lane → Control → Gate
gate llm c = c.llm_gate
gate _ c = c.static_gate

abbrev set_gate : Lane → Gate → Control → Control
set_gate llm g c = record c { llm_gate = g }
set_gate _ g c = record c { static_gate = g }

pub set_jobs : Lane → ℕ → Text → Control → Result (ℕ × Control)
set_jobs lane n by c =
    if is_lane lane
    then (let g = Semaphore.set_limit (min (max 1 n) (ceiling lane)) (gate lane c) in
        ok (g.limit, announce (jobs lane g.limit by) (set_gate lane g c)))
    else value_error

pub request_retry : Text → Option (List Text) → Text → Control → Control
request_retry name unit_ids by c =
    announce (retry_requested name (elim unit_ids [ none ↦ [] | some ids ↦ ids ]) by)
      (record c { retries = insert name unit_ids c.retries })

-- `drain_retries`; the outer `none` is the answer `False`.
pub drain_retries : Text → Control → Option (Option (List Text)) × Control
drain_retries name c = elim (lookup name c.retries) [
  | none ↦ (none, c)
  | some units ↦ (some units, record c { retries = without name c.retries })
]
