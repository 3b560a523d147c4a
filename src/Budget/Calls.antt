-- ===== src/Budget/Calls.antt =====
-- The calls of a phase's workers, as steps on the phase and the sessions that run.
use code_analyzer.Prelude.{
  ℕ, zero, suc, ◌+◌, Bool, Option, none, some, List, [], ◌∷◌, ◌++◌, get_elem?,
}
use code_analyzer.Prelude.Text.{Text}
use code_analyzer.Budget.{
  Settings, Record, Phase, Refusal, new, estimate_of, reserve, release, observe, account,
}

-- A section of a worker that runs under the phase's lock. `released` is that of the session in
-- one place of the list of those that run.
pub data Call (D : Type 0) : Type 0 where
  reserved : Text → Call D
  released : ℕ → Bool → Record D → Call D
  observed : Bool → Record D → Call D
  accounted : Record D → Call D

-- The phase with the estimates of the sessions that run, and what all sessions so far have
-- reserved of the two budgets.
pub record Run (D : Type 0) : Type 0 where
  pub phase : Phase D
  pub running : List ℕ
  pub prompt_total : ℕ
  pub completion_total : ℕ

unfoldable pub without_at : ℕ → List ℕ → List ℕ
without_at i [] = []
without_at zero (e ∷ running) = running
without_at (suc i) (e ∷ running) = e ∷ without_at i running

module _ {D : Type 0} (positive : D → Bool) (s : Settings) where
  unfoldable pub dispatch : Run D → ℕ → Option Refusal × Phase D → Run D
  dispatch run estimate (some why, st) = run
  dispatch run estimate (none, st) = record {
    phase = st;
    running = run.running ++ estimate ∷ [];
    prompt_total = run.prompt_total + estimate;
    completion_total = run.completion_total + s.max_completion_tokens;
  }

  unfoldable pub finish : Run D → ℕ → Bool → Record D → Option ℕ → Run D
  finish run i cached r none = run
  finish run i cached r (some estimate) = record run {
    phase = release s r estimate cached run.phase;
    running = without_at i run.running;
  }

  unfoldable pub step : Run D → Call D → Run D
  unfolding dispatch finish
  step run (reserved prompt) = dispatch run (estimate_of prompt) (reserve s prompt run.phase)
  step run (released i cached r) = finish run i cached r (get_elem? run.running i)
  step run (observed cached r) = record run { phase = observe positive s r cached run.phase }
  step run (accounted r) = record run { phase = account r run.phase }

module _ {D : Type 0} where
  unfoldable pub start : Run D
  unfolding new
  start = record { phase = new; running = []; prompt_total = 0; completion_total = 0 }
