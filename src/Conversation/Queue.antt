-- ===== src/Conversation/Queue.antt =====
-- What the user says and can be written reaches the ledger once, in order.
use code_analyzer.Prelude.{
  ℕ, ◌||◌, not, ◌≡◌, refl, sym, ap, ◌∙◌, Bool, true, false, none, List, [], ◌∷◌, ◌++◌, foldl,
  if◌then◌else◌, append-nil, append_assoc, Bool-cases, inl, inr,
}
use code_analyzer.Prelude.Text.{Text, is_empty}
use code_analyzer.Conversation.{
  Message, Spoken, user_queued, user_said, event_said, turn_ended, TurnEnd, Conversation,
  new_conversation, clean, is_writable, says_of, event, say, begin_with, begin, settle_turn, wakes,
  Happening, says, types, interrupts, begins, notifies, settles, happen,
}

-- The texts that were given to the agent.
abbrev pub said : List Spoken → List Text
said [] = []
said (user_said b text ∷ log) = text ∷ said log
said (user_queued text ∷ log) = said log
said (event_said text ∷ log) = said log
said (turn_ended e ∷ log) = said log

-- The texts that wait and that the ledger can hold.
abbrev pub waiting : List Message → List Text
waiting [] = []
waiting (m ∷ queue) =
    if m.wake || not (is_writable m.text) then waiting queue else m.text ∷ waiting queue

said-append : (a b : List Spoken) → said (a ++ b) ≡ said a ++ said b
said-append [] b = refl
said-append (user_said q text ∷ a) b = ap (λ t. text ∷ t) (said-append a b)
said-append (user_queued text ∷ a) b = said-append a b
said-append (event_said text ∷ a) b = said-append a b
said-append (turn_ended e ∷ a) b = said-append a b

waiting-append : (a b : List Message) → waiting (a ++ b) ≡ waiting a ++ waiting b
waiting-append [] b = refl
waiting-append (m ∷ a) b = elim (Bool-cases (m.wake || not (is_writable m.text))) [
  | inl e ↦ rw e (waiting-append a b)
  | inr e ↦ rw e (ap (λ t. m.text ∷ t) (waiting-append a b))
]

-- The texts that a happening adds.
abbrev pub added : Happening → List Text
added (says text) =
    if is_empty (clean text) || not (is_writable (clean text)) then [] else clean text ∷ []
added _ = []

abbrev pub texts : Conversation → List Text
texts c = said c.ledger ++ waiting c.queue

-- New records that say nothing for the user, and new messages.
grow-texts :
    (log extra : List Spoken) (queue more : List Message)
    → said extra ≡ []
    → said (log ++ extra) ++ waiting (queue ++ more) ≡ (said log ++ waiting queue) ++ waiting more
grow-texts log extra queue more h =
    ap (λ front. front ++ waiting (queue ++ more))
      (said-append log extra ∙ ap (λ t. said log ++ t) h ∙ append-nil (said log))
    ∙ ap (λ back. said log ++ back) (waiting-append queue more)
    ∙ sym (append_assoc (said log) (waiting queue) (waiting more))

said-queued : (b : Bool) (text : Text) → said (if b then user_queued text ∷ [] else []) ≡ []
said-queued true text = refl
said-queued false text = refl

waiting-woken :
    (b : Bool)
    → waiting (if b then record { text = []; queued_during_turn = false; wake = true } ∷ [] else [])
      ≡ []
waiting-woken true = refl
waiting-woken false = refl

-- A new message behind the others counts where it can be written.
said-texts-cons :
    (text : Text) (c : Conversation)
    → (said (c.ledger ++ (if c.busy then user_queued text ∷ [] else []))
        ++ waiting
            (c.queue ++ record { text = text; queued_during_turn = c.busy; wake = false } ∷ []))
      ≡ texts c ++ (if not (is_writable text) then [] else text ∷ [])
said-texts-cons text c =
    grow-texts c.ledger (if c.busy then user_queued text ∷ [] else []) c.queue
      (record { text = text; queued_during_turn = c.busy; wake = false } ∷ [])
      (said-queued c.busy text)

say-texts : (text : Text) (c : Conversation) → texts (say text c) ≡ texts c ++ added (says text)
unfolding say
say-texts text c = elim (Bool-cases (is_empty (clean text))) [
  | inl e ↦ rw e (sym (append-nil (texts c)))
  | inr e ↦ elim (Bool-cases (is_writable (clean text))) [
    | inl w ↦ elim (Bool-cases c.busy) [
      | inl b ↦ rw (e, w, b) (let k = said-texts-cons (clean text) c in rw (w, b) at k)
      | inr b ↦ rw (e, w, b) (let k = said-texts-cons (clean text) c in rw (w, b) at k)
    ]
    | inr w ↦ elim (Bool-cases c.busy) [
      | inl b ↦ rw (e, w, b) (sym (append-nil (texts c)))
      | inr b ↦ rw (e, w, b) (let k = said-texts-cons (clean text) c in rw (w, b) at k)
    ]
  ]
]

begin_with-texts :
    (queue : List Message) (c : Conversation)
    → texts (begin_with queue c)
      ≡ (if is_empty queue then texts c else said c.ledger ++ waiting queue)
unfolding begin_with says_of
begin_with-texts [] c = refl
begin_with-texts (m ∷ rest) c = elim (Bool-cases m.wake) [
  | inr e ↦ elim (Bool-cases (is_writable m.text)) [
    | inl w ↦
        rw (e, w)
          (ap (λ front. front ++ waiting rest)
              (said-append c.ledger (user_said m.queued_during_turn m.text ∷ []))
            ∙ append_assoc (said c.ledger) (m.text ∷ []) (waiting rest))
    | inr w ↦
        rw (e, w)
          (ap (λ front. front ++ waiting rest)
            (said-append c.ledger [] ∙ append-nil (said c.ledger)))
  ]
  | inl e ↦ elim (Bool-cases (is_empty rest)) [
    | inr f ↦ rw (e, f) refl
    | inl f ↦
        rw (e, f)
          (ap (λ front. front ++ waiting rest)
            (said-append c.ledger [] ∙ append-nil (said c.ledger)))
  ]
]

if-same : (b : Bool) (x : List Text) → (if b then x else x) ≡ x
if-same true x = refl
if-same false x = refl

begin-texts : (c : Conversation) → texts (begin c) ≡ texts c
unfolding begin
begin-texts c = go c.busy
  where
    go : (b : Bool) → texts (if b then c else begin_with c.queue c) ≡ texts c
    go true = refl
    go false = begin_with-texts c.queue c ∙ if-same (is_empty c.queue) (texts c)

settle-texts : (e : TurnEnd) (c : Conversation) → texts (settle_turn e c) ≡ texts c
settle-texts e c = go c.busy
  where
    go :
        (b : Bool)
        → texts (
            if b
            then record c { token = none; busy = false; ledger = c.ledger ++ turn_ended e ∷ [] }
            else c)
          ≡ texts c
    go true =
        ap (λ front. front ++ waiting c.queue)
          (said-append c.ledger (turn_ended e ∷ []) ∙ append-nil (said c.ledger))
    go false = refl

event-texts :
    (key text : Text) (now : ℕ) (c : Conversation) → texts (event key text now c) ≡ texts c
unfolding event
event-texts key text now c = elim (Bool-cases (is_writable text)) [
  | inr w ↦ rw w refl
  | inl w ↦ rw w (
      grow-texts c.ledger (event_said text ∷ []) c.queue _ refl
      ∙ ap (λ t. texts c ++ t) (waiting-woken (wakes key now c))
      ∙ append-nil (texts c))
]

happen-texts : (c : Conversation) (h : Happening) → texts (happen c h) ≡ texts c ++ added h
unfolding happen
happen-texts c (says text) = say-texts text c
happen-texts c (types now) = sym (append-nil (texts c))
happen-texts c interrupts = sym (append-nil (texts c))
happen-texts c begins = begin-texts c ∙ sym (append-nil (texts c))
happen-texts c (notifies key text now) = event-texts key text now c ∙ sym (append-nil (texts c))
happen-texts c (settles e) = settle-texts e c ∙ sym (append-nil (texts c))

abbrev pub all_added : List Happening → List Text
all_added [] = []
all_added (h ∷ hs) = added h ++ all_added hs

run-texts :
    (hs : List Happening) (c : Conversation) → texts (foldl happen c hs) ≡ texts c ++ all_added hs
run-texts [] c = sym (append-nil (texts c))
run-texts (h ∷ hs) c =
    run-texts hs (happen c h)
    ∙ ap (λ t. t ++ all_added hs) (happen-texts c h)
    ∙ append_assoc (texts c) (added h) (all_added hs)

-- However messages, events, interrupts and turns interleave: the texts that were given to the
-- agent, followed by those that wait in the queue and can be written, are the texts that the user
-- sent, that are not blank and that have no lone surrogate, cut to 8000 characters, in the order in
-- which they were sent, each once.
pub texts-happen : (hs : List Happening) → texts (foldl happen new_conversation hs) ≡ all_added hs
texts-happen hs = run-texts hs new_conversation
