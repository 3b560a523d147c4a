-- ===== src/Budget/Examples.antt =====
-- A phase with two sessions, and an endpoint that is gone.
use code_analyzer.Prelude.{ℕ, ◌≡◌, refl, Bool, true, false, none, some, List, [], ◌∷◌, foldl, ltb}
use code_analyzer.Prelude.Text.{codes, decimal}
use code_analyzer.Budget.{Settings, Record, observe, account, reserve, release, provider_stop}
use code_analyzer.Budget.Calls.{
  Call, reserved, released, observed, accounted, Run, step, start, without_at,
}
use code_analyzer.Budget.Solvent.{IsSolvent, run-IsSolvent}

abbrev settings : Settings
settings = record {
  prompt_budget = 10;
  completion_budget = 150;
  max_completion_tokens = 100;
  effective_context = none;
  breaker_limit = 2;
}

abbrev positive : ℕ → Bool
positive n = ltb 0 n

abbrev answered : Record ℕ
answered = record {
  status = codes "completed";
  reason = [];
  finish_reason = [];
  valid_report = true;
  failure_class = [];
  failure_code = [];
  failure_message = [];
  usage = some (record { prompt_tokens = 3; completion_tokens = 30; requests = 1 });
  duration = some 5;
}

abbrev unreachable : Record ℕ
unreachable = record answered {
  status = codes "failed";
  failure_class = codes "transport";
  failure_message = codes "down";
  usage = none;
}

abbrev calls : List (Call ℕ)
calls =
    reserved (codes "a prompt")
    ∷ reserved (codes "refused")
    ∷ released 0 false answered
    ∷ observed false answered
    ∷ accounted answered
    ∷ reserved (codes "late")
    ∷ []

abbrev ended : Run ℕ
ended = foldl (step positive settings) start calls

refunded_and_running : ended.phase.completion_reserved ≡ 130
unfolding step start reserve release account observe
refunded_and_running = refl

-- A failure, the call that puts its session back, another session, and a failure of that one.
abbrev failing : List (Call ℕ)
failing =
    reserved (codes "a prompt")
    ∷ released 0 false unreachable
    ∷ observed false unreachable
    ∷ reserved (codes "another")
    ∷ released 0 false unreachable
    ∷ accounted unreachable
    ∷ observed false unreachable
    ∷ []

abbrev gone : Run ℕ
gone = foldl (step positive settings) start failing

opens :
    gone.phase.breaker_open
    ≡ some (
        codes "provider unreachable: TRANSPORT down (circuit breaker after 2 consecutive failures)")
unfolding step start decimal observe reserve release account without_at
opens = refl

abbrev gone_later : Run ℕ
gone_later = foldl (step positive settings) gone calls

demoted :
    (provider_stop
      (record answered { status = codes "interrupted"; finish_reason = codes "aborted" })).1
    ≡ true
unfolding provider_stop
demoted = refl

run-IsSolvent_example : IsSolvent positive settings ended
run-IsSolvent_example = run-IsSolvent positive settings calls
