-- ===== src/Broker.antt =====
-- model/broker.py: who may use the GPU, and when. Times are those that `clock` gives, as numbers;
-- a cancel token is known by a number.
use code_analyzer.Prelude.{
  ℕ, zero, suc, ◌+◌, ◌-◌, ◌≤◌, ◌≡◌, ◌&&◌, Bool, true, false, Option, none, some, List, [], ◌∷◌,
  ◌++◌, leb, ◌==◌, if◌then◌else◌, length, any,
}
pub mod Quiet
mod Examples

-- `Broker`; `last_activity` is empty for minus infinity. `cancelled` are the tokens that the
-- broker has cancelled with the reason `preempted`.
pub record Broker : Type 0 where
  resume_after : ℕ
  interactive : ℕ
  last_activity : Option ℕ
  background : List ℕ
  preemptions : ℕ
  cancelled : List ℕ

-- `Broker.__init__`
unfoldable pub new : ℕ → Broker
new resume_after = record {
  resume_after = resume_after;
  interactive = 0;
  last_activity = none;
  background = [];
  preemptions = 0;
  cancelled = [];
}

-- `set.add`
unfoldable pub add : ℕ → List ℕ → List ℕ
add token tokens = if any (λ t. t == token) tokens then tokens else token ∷ tokens

-- `set.discard`
unfoldable pub discard : ℕ → List ℕ → List ℕ
discard token [] = []
discard token (t ∷ tokens) =
    let rest = discard token tokens in if t == token then rest else t ∷ rest

-- The time since the last activity is long enough.
unfoldable pub is_rested : ℕ → Option ℕ → ℕ → Bool
is_rested resume_after none now = true
is_rested resume_after (some last) now = leb (last + resume_after) now

-- `_ready` at a time.
unfoldable pub ready : Broker → ℕ → Bool
unfolding is_rested
ready b now = b.interactive == 0 && is_rested b.resume_after b.last_activity now

-- `interactive` up to its `yield`, with the `cancel` of each of the victims.
unfoldable pub enter_interactive : ℕ → Broker → Broker
enter_interactive now b = record b {
  interactive = b.interactive + 1;
  last_activity = some now;
  preemptions = b.preemptions + length b.background;
  cancelled = b.background ++ b.cancelled;
}

-- The `finally` of `interactive`.
unfoldable pub leave_interactive : ℕ → Broker → Broker
leave_interactive now b = record b { interactive = b.interactive - 1; last_activity = some now }

-- `note_activity`
unfoldable pub note_activity : ℕ → Broker → Broker
note_activity now b = record b { last_activity = some now }

-- What one look of the loop of `background` does.
pub data Look : Type 0 where
  waits : Look
  raises_cancelled : Look
  holds : Broker → Look

-- `background` up to its `yield`: one round of its loop, with whether `stop` is cancelled.
unfoldable pub enter_background : ℕ → ℕ → Bool → Broker → Look
unfolding ready add
enter_background now token stopped b =
    if ready b now
    then holds (record b { background = add token b.background })
    else if stopped
    then raises_cancelled
    else waits

-- The `finally` of `background`.
unfoldable pub leave_background : ℕ → Broker → Broker
unfolding discard
leave_background token b = record b { background = discard token b.background }

-- The broker, the time, and the number of the turns of the conversation that run.
pub record World : Type 0 where
  broker : Broker
  now : ℕ
  turns : ℕ

-- A section of a thread that runs under the broker's lock. The victims of a turn are cancelled
-- right behind the section, which the step takes in.
pub data Step : World → World → Type 0 where
  passes : (w : World) (seconds : ℕ) → Step w (record w { now = w.now + seconds })
  begins_turn :
      (w : World)
      → Step w (record w { broker = enter_interactive w.now w.broker; turns = w.turns + 1 })
  ends_turn :
      (w : World) (n : ℕ)
      → w.turns ≡ suc n
      → Step w (record w { broker = leave_interactive w.now w.broker; turns = n })
  types : (w : World) → Step w (record w { broker = note_activity w.now w.broker })
  begins_background :
      (w : World) (token : ℕ) (b : Broker)
      → enter_background w.now token false w.broker ≡ holds b
      → Step w (record w { broker = b })
  ends_background :
      (w : World) (token : ℕ) → Step w (record w { broker = leave_background token w.broker })

pub data Steps : World → World → Type 0 where
  stays : (w : World) → Steps w w
  goes : (w v u : World) → Steps w v → Step v u → Steps w u

abbrev pub start : ℕ → World
start resume_after = record { broker = new resume_after; now = 0; turns = 0 }
