-- ===== src/Approvals.antt =====
-- code_analyzer/kernel/approvals.py: the approval cards of an evaluation, read from its ledger.
-- `args_sha` stands for the hash of a tool with its arguments, `digest` for the first 16 digits of
-- the hash of a text. A moment is a number of seconds. `decide` is in two parts, as other records
-- may come between: `decide` up to the grant, and `finish`, when the tool has returned.
-- `decide` speaks of one reading of the ledger: no lock holds other records off between the reading
-- and the grant, so that two clicks can read the same ledger.
pub mod Granted
mod Examples
use code_analyzer.Prelude.{
  ℕ, zero, suc, ◌+◌, Bool, true, false, ◌&&◌, ◌||◌, not, Option, none, some, List, [], ◌∷◌, ◌++◌,
  ltb, ◌==◌, if◌then◌else◌, any, length,
}
use code_analyzer.Prelude.Text.{Text, text_eq, decimal, is_empty, codes}
use code_analyzer.Schema.Values.{Json}
use code_analyzer.Ledger.{Record, highest}

-- `TTL_SECONDS`
abbrev pub ttl_seconds : ℕ
ttl_seconds = 1800

pub record Request : Type 0 where
  pub tool : Text
  pub arguments : Json
  pub summary : Text

pub record Card : Type 0 where
  pub id : Text
  pub request : Request
  pub args_sha256 : Text
  pub state : Text
  pub expires_at : ℕ

-- The records that a card is bound to.
pub data Versioned : Type 0 where
  profile_selected buildctx_version pv_numbered : Versioned

pub data Entry : Type 0 where
  changed : Versioned → (sha256 : Text) → Entry
  approval_shown : Card → Entry
  approval_granted approval_rejected : (id by : Text) → Entry
  approval_expired : (id reason : Text) → Entry
  tool_result : (id : Text) → Entry
  other : Text → Entry

abbrev pub Log : Type 0
Log = List (Record Entry)

-- `ledger.append`
abbrev pub append : Entry → Log → Log
append e log = log ++ record { seq = suc (highest log); says = e } ∷ []

abbrev pub code_of : Versioned → ℕ
code_of profile_selected = 0
code_of buildctx_version = 1
code_of pv_numbered = 2

abbrev pub part_of : Versioned → Text → Record Entry → Text
part_of v part r = elim r.says [
  | changed w sha256 ↦
      if code_of w == code_of v then (if is_empty sha256 then decimal r.seq else sha256) else part
  | approval_shown _ ↦ part
  | approval_granted _ _ ↦ part
  | approval_rejected _ _ ↦ part
  | approval_expired _ _ ↦ part
  | tool_result _ ↦ part
  | other _ ↦ part
]

abbrev last_part : Versioned → Text → Log → Text
last_part v part [] = part
last_part v part (r ∷ log) = last_part v (part_of v part r) log

-- `state_of`
pub state_of : (Text → Text) → Log → Text
state_of digest log = digest (
    last_part profile_selected (codes "-") log
    ++ codes "|"
    ++ last_part buildctx_version (codes "-") log
    ++ codes "|"
    ++ last_part pv_numbered (codes "-") log)

abbrev pub cards_by : Entry → List Card
cards_by (approval_shown card) = card ∷ []
cards_by _ = []

-- The cards that were shown, in their order.
abbrev pub cards : Log → List Card
cards [] = []
cards (r ∷ log) = cards_by r.says ++ cards log

abbrev pub decides : Text → Entry → Bool
decides id (approval_granted j by) = text_eq id j
decides id (approval_rejected j by) = text_eq id j
decides id (approval_expired j reason) = text_eq id j
decides id _ = false

abbrev pub is_decided : Text → Log → Bool
is_decided id log = any (λ r. decides id r.says) log

-- The card of that id that was shown last.
abbrev pub card_of : Text → List Card → Option Card
card_of id [] = none
card_of id (card ∷ rest) = elim (card_of id rest) [
  | some later ↦ some later
  | none ↦ if text_eq id card.id then some card else none
]

pub data Answer : Type 0 where
  reject : Answer
  approve : Answer

-- What `decide` comes to: an error, a rejection, or the tool to run.
pub data Ruling : Type 0 where
  no_such_card already_decided : Ruling
  void : (reason : Text) → Ruling
  was_rejected : Ruling
  runs : Request → Ruling

module _ (args_sha : Text → Json → Text) (digest : Text → Text) where
  abbrev pub new_card : Request → (now : ℕ) → Log → Card
  new_card request now log = record {
    id = b'A' ∷ decimal (length (cards log) + 1);
    request = request;
    args_sha256 = args_sha request.tool request.arguments;
    state = state_of digest log;
    expires_at = now + ttl_seconds;
  }

  -- `show`
  abbrev pub show : Request → (now : ℕ) → Log → Log
  show request now log = append (approval_shown (new_card request now log)) log

  -- The reason for which a card can no longer run, empty where there is none.
  abbrev pub reason_of : Card → (sha : Text) → (now : ℕ) → Log → Text
  reason_of card sha now log =
      if not (text_eq sha card.args_sha256)
        || not (text_eq (args_sha card.request.tool card.request.arguments) card.args_sha256)
      then codes "the arguments do not match the card"
      else if ltb card.expires_at now
      then codes "the card expired (30 minutes)"
      else if not (text_eq (state_of digest log) card.state)
      then codes "the evaluation changed since the card was shown"
      else []

  -- What an approval comes to, by the reason against it.
  abbrev pub grant_or_void : Card → (id by reason : Text) → Log → Ruling × Log
  grant_or_void card id by reason log = (
    if is_empty reason then runs card.request else void reason,
    append (if is_empty reason then approval_granted id by else approval_expired id reason) log,
  )

  abbrev pub answer_card : Answer → Card → (id by sha : Text) → (now : ℕ) → Log → Ruling × Log
  answer_card reject card id by sha now log = (was_rejected, append (approval_rejected id by) log)
  answer_card approve card id by sha now log =
      grant_or_void card id by (reason_of card sha now log) log

  abbrev pub decide_on : Option Card → Answer → (id by sha : Text) → (now : ℕ) → Log → Ruling × Log
  decide_on none answer id by sha now log = (no_such_card, log)
  decide_on (some card) answer id by sha now log =
      if is_decided id log
      then (already_decided, log)
      else answer_card answer card id by sha now log

  -- `decide`, up to the grant
  abbrev pub decide : Answer → (id by sha : Text) → (now : ℕ) → Log → Ruling × Log
  decide answer id by sha now log = decide_on (card_of id (cards log)) answer id by sha now log

  -- `pending`
  abbrev pub pending : (now : ℕ) → Log → List Card
  pending now log = waiting now log (cards log)
    where
      waiting : ℕ → Log → List Card → List Card
      waiting now log [] = []
      waiting now log (card ∷ rest) =
          let others = waiting now log rest in
          if not (is_decided card.id log) && ltb now card.expires_at then card ∷ others else others

-- `decide`, behind the tool's return
abbrev pub finish : Text → Log → Log
finish id log = append (tool_result id) log
