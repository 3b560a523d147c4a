-- ===== src/Budget.antt =====
-- llm/scan.py: the budgets and the circuit breaker of one LLM phase, the sections of `_Phase`
-- that run under its lock. `D` is the type of durations, `positive` the test `duration > 0`;
-- the provider's counts are not negative.
use code_analyzer.Prelude.{
  ℕ, zero, suc, ◌+◌, ◌-◌, ◌/◌, ◌||◌, ◌&&◌, Bool, true, false, not, Option, none, some, List, [],
  ◌∷◌, ◌++◌, foldl, max, min, ltb, leb, ◌==◌, if◌then◌else◌, length, get_elem?, drop,
}
use code_analyzer.Prelude.Text.{Text, codes, text_eq, is_empty, strip, decimal}
pub mod Calls
pub mod Solvent
pub mod Breaker
mod Examples

pub record Settings : Type 0 where
  prompt_budget : ℕ
  completion_budget : ℕ
  max_completion_tokens : ℕ
  effective_context : Option ℕ
  breaker_limit : ℕ

-- `usage_measured` of a record.
pub record Usage : Type 0 where
  prompt_tokens : ℕ
  completion_tokens : ℕ
  requests : ℕ

-- The fields of a unit's record that the phase reads; an empty text stands for a missing one.
pub record Record (D : Type 0) : Type 0 where
  status : Text
  reason : Text
  finish_reason : Text
  valid_report : Bool
  failure_class : Text
  failure_code : Text
  failure_message : Text
  usage : Option Usage
  duration : Option D

-- The counters of `_Phase`; those named `refunded` and `measured` are the values of its dicts.
pub record Phase (D : Type 0) : Type 0 where
  prompt_spent : ℕ
  completion_reserved : ℕ
  refunded_prompt : ℕ
  refunded_completion : ℕ
  measured : Usage
  consecutive : ℕ
  breaker_open : Option Text
  window : List (D × ℕ)
  settled : ℕ

-- `CHARS_PER_TOKEN`
unfoldable pub chars_per_token : ℕ
chars_per_token = 4

-- `PROMPT_OVERHEAD_TOKENS`
unfoldable pub prompt_overhead_tokens : ℕ
prompt_overhead_tokens = 1900

-- The reasons of `_reserve`.
pub data Refusal : Type 0 where
  window_exceeded prompt_exhausted completion_exhausted : Refusal

-- The variable `estimate` of `_reserve`: the length divided by `CHARS_PER_TOKEN`, rounded up.
unfoldable pub estimate_of : Text → ℕ
unfolding chars_per_token
estimate_of prompt = max 1 ((length prompt + (chars_per_token - 1)) / chars_per_token)

unfoldable pub exceeds : ℕ → Option ℕ → Bool
exceeds n none = false
exceeds n (some context) = ltb context n

unfoldable pub requests_of : Option Usage → ℕ
requests_of none = 0
requests_of (some u) = u.requests

unfoldable pub completion_of : Option Usage → ℕ
completion_of none = 0
completion_of (some u) = u.completion_tokens

-- `breaker_open` as a condition.
unfoldable pub is_open : Option Text → Bool
is_open none = false
is_open (some t) = not (is_empty t)

-- Appending to a `deque(maxlen=20)`.
unfoldable pub push {ℓ} : {A : Type ℓ} → List A → A → List A
push window a = drop (length window + 1 - 20) (window ++ a ∷ [])

-- What `_execute_gated` decides in front of the session.
pub data Admission : Type 0 where
  interrupted : Admission
  unscheduled_breaker : Text → Admission
  unscheduled_deadline : Admission
  unscheduled_budget : Refusal → Admission
  dispatched : ℕ → Admission

module _ {D : Type 0} where
  -- `_Phase.__init__`
  unfoldable pub new : Phase D
  new = record {
    prompt_spent = 0;
    completion_reserved = 0;
    refunded_prompt = 0;
    refunded_completion = 0;
    measured = record { prompt_tokens = 0; completion_tokens = 0; requests = 0 };
    consecutive = 0;
    breaker_open = none;
    window = [];
    settled = 0;
  }

  -- `_reserve` for an estimate, with the reason where it refuses.
  unfoldable pub reserve_estimate : Settings → ℕ → Phase D → Option Refusal × Phase D
  unfolding exceeds prompt_overhead_tokens
  reserve_estimate s estimate st =
      if exceeds (estimate + prompt_overhead_tokens + s.max_completion_tokens) s.effective_context
      then (some window_exceeded, st)
      else if ltb s.prompt_budget (st.prompt_spent + estimate)
      then (some prompt_exhausted, st)
      else if ltb s.completion_budget (st.completion_reserved + s.max_completion_tokens)
      then (some completion_exhausted, st)
      else (
        none,
        record st {
          prompt_spent = st.prompt_spent + estimate;
          completion_reserved = st.completion_reserved + s.max_completion_tokens;
        },
      )

  -- `_reserve`
  unfoldable pub reserve : Settings → Text → Phase D → Option Refusal × Phase D
  unfolding reserve_estimate estimate_of
  reserve s prompt st = reserve_estimate s (estimate_of prompt) st

  -- The completion tokens that `_release` gives back.
  unfoldable pub unused : Settings → Record D → Bool → ℕ
  unfolding requests_of completion_of
  unused s r cached =
      if ltb 0 (requests_of r.usage) && not cached
      then s.max_completion_tokens - min s.max_completion_tokens (completion_of r.usage)
      else 0

  -- A transport failure of a session that was not replayed.
  unfoldable pub is_transport : Record D → Bool → Bool
  is_transport r cached = text_eq r.failure_class (codes "transport") && not cached

  -- The prompt tokens that `_release` gives back.
  unfoldable pub back : Record D → ℕ → Bool → ℕ → ℕ
  unfolding is_transport
  back r estimate cached spent = if is_transport r cached then min estimate spent else 0

  -- `_release`
  unfoldable pub release : Settings → Record D → ℕ → Bool → Phase D → Phase D
  unfolding unused back
  release s r estimate cached st = record st {
    completion_reserved = st.completion_reserved - unused s r cached;
    refunded_completion = st.refunded_completion + unused s r cached;
    prompt_spent = st.prompt_spent - back r estimate cached st.prompt_spent;
    refunded_prompt = st.refunded_prompt + back r estimate cached st.prompt_spent;
  }

  -- The text of `breaker_open`.
  unfoldable pub breaker_text : Record D → ℕ → Text
  breaker_text r consecutive = strip (
      codes "provider unreachable: "
      ++ (if is_empty r.failure_code then codes "TRANSPORT" else r.failure_code)
      ++ codes " "
      ++ r.failure_message
      ++ codes " (circuit breaker after "
      ++ decimal consecutive
      ++ codes " consecutive failures)")

  -- The branch of `_observe` for a transport failure.
  unfoldable pub count_failure : Settings → Record D → Phase D → Phase D
  unfolding is_open breaker_text
  count_failure s r st =
      let consecutive = st.consecutive + 1 in
      record st {
        consecutive = consecutive;
        breaker_open =
            if not (s.breaker_limit == 0)
              && (leb s.breaker_limit consecutive && not (is_open st.breaker_open))
            then some (breaker_text r consecutive)
            else st.breaker_open;
      }

  unfoldable pub timed : (D → Bool) → Record D → Bool → List (D × ℕ) → List (D × ℕ)
  unfolding push completion_of
  timed positive r cached window = elim r.duration [
    | none ↦ window
    | some d ↦ if positive d && not cached then push window (d, completion_of r.usage) else window
  ]

  -- The first lines of `_observe`.
  unfoldable pub settle : (D → Bool) → Record D → Bool → Phase D → Phase D
  unfolding timed
  settle positive r cached st = record st {
    settled = st.settled + 1;
    window = timed positive r cached st.window;
  }

  -- `_observe`
  unfoldable pub observe : (D → Bool) → Settings → Record D → Bool → Phase D → Phase D
  unfolding settle is_transport count_failure
  observe positive s r cached st =
      if is_transport r cached
      then count_failure s r (settle positive r cached st)
      else if text_eq r.status (codes "completed") || text_eq r.status (codes "partial")
      then record (settle positive r cached st) { consecutive = 0 }
      else settle positive r cached st

  -- `account`
  unfoldable pub account : Record D → Phase D → Phase D
  account r st = elim r.usage [
    | none ↦ st
    | some u ↦ record st {
      measured = record {
        prompt_tokens = st.measured.prompt_tokens + u.prompt_tokens;
        completion_tokens = st.measured.completion_tokens + u.completion_tokens;
        requests = st.measured.requests + u.requests;
      };
    }
  ]

  -- `_provider_stop`: the record, and whether it was demoted.
  unfoldable pub provider_stop : Record D → Record D × Bool
  provider_stop r =
      let detail =
        codes "provider stopped the scan (finish_reason " ++ r.finish_reason ++ codes ")" in
      if not (text_eq r.status (codes "interrupted")) || is_empty r.finish_reason
      then (r, false)
      else (
        record r {
          status = if r.valid_report then codes "partial" else codes "failed";
          reason = if is_empty r.reason then detail else detail ++ codes "; " ++ r.reason;
        },
        true,
      )

  -- The variable `cacheable` of `_execute_gated`.
  unfoldable pub is_cacheable : Record D × Bool → Bool
  is_cacheable (r, stopped) =
      (text_eq r.status (codes "completed") || text_eq r.status (codes "partial")) && not stopped

  unfoldable pub admitted : Text → Option Refusal × Phase D → Admission × Phase D
  unfolding estimate_of
  admitted prompt (none, st) = (dispatched (estimate_of prompt), st)
  admitted prompt (some why, st) = (unscheduled_budget why, st)

  -- `_execute_gated` up to the session, with whether the run is cancelled and whether time is
  -- left.
  unfoldable pub execute_gated : Settings → Bool → Bool → Text → Phase D → Admission × Phase D
  unfolding is_open admitted reserve
  execute_gated s cancelled in_time prompt st =
      if cancelled
      then (interrupted, st)
      else if is_open st.breaker_open
      then (unscheduled_breaker (elim st.breaker_open [ none ↦ [] | some t ↦ t ]), st)
      else if not in_time
      then (unscheduled_deadline, st)
      else admitted prompt (reserve s prompt st)
