-- ===== src/Conversation.antt =====
-- code_analyzer/kernel/session.py: the conversation of one evaluation, with its queue and its one
-- worker. A moment is a number of seconds of a clock. The worker's loop is in two steps, `begin`
-- and `settle_turn`, as other threads may come between; a worker that waits for a message, or is in
-- a turn, begins nothing.
pub mod Queue
mod Examples
use code_analyzer.Prelude.{
  ℕ, zero, suc, ◌+◌, Bool, true, false, ◌&&◌, ◌||◌, not, Option, none, some, List, [], ◌∷◌, ◌++◌,
  ltb, leb, all, if◌then◌else◌, take,
}
use code_analyzer.Prelude.Text.{Text, strip, is_empty}
use code_analyzer.Prelude.Dict.{lookup, insert}

-- `_Message`
pub record Message : Type 0 where
  pub text : Text
  pub queued_during_turn : Bool
  pub wake : Bool

-- How a turn ended.
pub data TurnEnd : Type 0 where
  turn_finished : (steps : ℕ) → TurnEnd
  turn_cancelled : (reason : Text) → TurnEnd
  agent_error : (code message : Text) → TurnEnd

pub data Spoken : Type 0 where
  user_queued : Text → Spoken
  user_said : (written_before : Bool) → Text → Spoken
  event_said : Text → Spoken
  turn_ended : TurnEnd → Spoken

-- `Conversation`; the token is there in a turn, and tells whether it was cancelled.
pub record Conversation : Type 0 where
  pub queue : List Message
  pub token : Option Bool
  pub busy : Bool
  pub generation : ℕ
  pub typing_at : ℕ
  pub last_wake : List (Text × ℕ)
  pub ledger : List Spoken

abbrev pub new_conversation : Conversation
new_conversation = record {
  queue = [];
  token = none;
  busy = false;
  generation = 0;
  typing_at = 0;
  last_wake = [];
  ledger = [];
}

-- The text that `say` keeps.
pub clean : Text → Text
clean text = take 8000 (strip text)

-- The text encodes in UTF-8, as `jsonl_bytes` of persist.py wants it: it has no surrogate.
unfoldable pub is_writable : Text → Bool
is_writable text = all (λ c. not (leb 55296 c && leb c 57343)) text

-- `say`; an empty text raises and changes nothing, and so does one that `user_queued` cannot hold.
unfoldable pub say : Text → Conversation → Conversation
unfolding is_writable
say text c =
    let kept = clean text in
    if is_empty kept || (c.busy && not (is_writable kept)) then c else record c {
      queue = c.queue ++ record { text = kept; queued_during_turn = c.busy; wake = false } ∷ [];
      ledger = c.ledger ++ (if c.busy then user_queued kept ∷ [] else []);
    }

-- `typing`
abbrev pub typing : (now : ℕ) → Conversation → Conversation
typing now c = record c { typing_at = now }

abbrev pub is_running : Option Bool → Bool
is_running none = false
is_running (some _) = true

-- `interrupt`, and what it returns
abbrev pub interrupt : Conversation → Bool × Conversation
interrupt c =
    (is_running c.token, record c { token = if is_running c.token then some true else none })

-- `WAKE_QUIET_SECONDS` and `WAKE_MIN_INTERVAL`
abbrev pub wake_quiet_seconds : ℕ
wake_quiet_seconds = 20

abbrev pub wake_min_interval : ℕ
wake_min_interval = 120

abbrev pub long_ago : (now : ℕ) → Option ℕ → Bool
long_ago now none = true
long_ago now (some t) = ltb (t + wake_min_interval) now

abbrev pub wakes : Text → (now : ℕ) → Conversation → Bool
wakes key now c =
    not c.busy
    && is_empty c.queue
    && ltb (c.typing_at + wake_quiet_seconds) now
    && long_ago now (lookup key c.last_wake)

-- `event`, which raises where its record cannot be written
unfoldable pub event : (key text : Text) → (now : ℕ) → Conversation → Conversation
unfolding is_writable
event key text now c =
    let woken = wakes key now c in
    if not (is_writable text) then c else record c {
      queue =
          c.queue
          ++ (if woken
              then record { text = []; queued_during_turn = false; wake = true } ∷ []
              else []);
      last_wake = if woken then insert key now c.last_wake else c.last_wake;
      ledger = c.ledger ++ event_said text ∷ [];
    }

-- What a message brings to the ledger: nothing where `append` raises.
unfoldable pub says_of : Message → List Spoken
unfolding is_writable
says_of m =
    if m.wake || not (is_writable m.text) then [] else user_said m.queued_during_turn m.text ∷ []

-- The worker with a message: a wake gives way to a message behind it. Where the message cannot be
-- written the turn goes straight to its end, an `agent_error`, and the message is in neither the
-- queue nor the ledger.
unfoldable pub begin_with : List Message → Conversation → Conversation
unfolding says_of
begin_with [] c = c
begin_with (m ∷ rest) c =
    if m.wake && not (is_empty rest) then record c { queue = rest } else record c {
      queue = rest;
      token = some false;
      busy = true;
      generation = suc c.generation;
      ledger = c.ledger ++ says_of m;
    }

unfoldable pub begin : Conversation → Conversation
unfolding begin_with
begin c = if c.busy then c else begin_with c.queue c

-- The end of a turn, by whatever it ends.
abbrev pub settle_turn : TurnEnd → Conversation → Conversation
settle_turn e c =
    if c.busy
    then record c { token = none; busy = false; ledger = c.ledger ++ turn_ended e ∷ [] }
    else c

pub data Happening : Type 0 where
  says : Text → Happening
  types : (now : ℕ) → Happening
  interrupts begins : Happening
  notifies : (key text : Text) (now : ℕ) → Happening
  settles : TurnEnd → Happening

unfoldable pub happen : Conversation → Happening → Conversation
unfolding say event begin
happen c (says text) = say text c
happen c (types now) = typing now c
happen c interrupts = (interrupt c).1
happen c begins = begin c
happen c (notifies key text now) = event key text now c
happen c (settles e) = settle_turn e c
