-- ===== src/Turn.antt =====
-- code_analyzer/kernel/loop.py: one conversational turn. `model` stands for the decoded reply of the
-- model to the ledger as it is, `is_read` for a call whose tool is known and only reads, and `asks`
-- for a call whose execution shows an approval card. The fold of the history, the rendering of the
-- messages and the measured times are left out; a result keeps the call that it is of.
pub mod Bounds
mod Examples
use code_analyzer.Prelude.{
  ℕ, zero, suc, ◌+◌, ◌-◌, Bool, true, false, ◌&&◌, ◌||◌, not, Option, none, some, List, [], ◌∷◌,
  ◌++◌, map, ◌==◌, if◌then◌else◌, take, drop, any,
}
use code_analyzer.Prelude.Text.{Text, is_empty}

-- `MAX_STEPS`
abbrev pub max_steps : ℕ
max_steps = 3

pub record ToolCall : Type 0 where
  pub id : Text
  pub name : Text
  pub arguments : Text

pub record Decoded : Type 0 where
  pub say : Text
  pub calls : List ToolCall
  pub problems : List Text

pub data EndedBy : Type 0 where
  answer action approval limit invalid : EndedBy

pub record TurnOutcome : Type 0 where
  pub steps : ℕ
  pub answered : Bool
  pub ended_by : EndedBy

-- The records that a turn appends.
pub data Said : Type 0 where
  agent_said : (step : ℕ) → Text → (chosen dropped : List ToolCall) → Said
  event_said : (problems : List Text) → Said
  tool_result : ToolCall → Said

module _ (is_read asks : ToolCall → Bool) where
  abbrev pub reads : List ToolCall → List ToolCall
  reads [] = []
  reads (c ∷ calls) = let rest = reads calls in if is_read c then c ∷ rest else rest

  abbrev pub actions : List ToolCall → List ToolCall
  actions [] = []
  actions (c ∷ calls) = let rest = actions calls in if is_read c then rest else c ∷ rest

  abbrev pub chosen : (last : Bool) → List ToolCall → List ToolCall
  chosen last calls = if last then [] else reads calls ++ take 1 (actions calls)

  abbrev pub dropped : (last : Bool) → List ToolCall → List ToolCall
  dropped last calls = if last then calls else drop 1 (actions calls)

  -- How the calls that ran end the turn: by the last action among them, if there is one.
  abbrev pub ending : Option EndedBy → List ToolCall → Option EndedBy
  ending so_far [] = so_far
  ending so_far (c ∷ calls) =
      ending (if is_read c then so_far else some (if asks c then approval else action)) calls

  -- The end of a turn in which a step chose no call.
  abbrev pub without_call : (step : ℕ) → (last : Bool) → Decoded → TurnOutcome
  without_call step last d =
      if last && not (is_empty d.calls)
      then record { steps = step; answered = not (is_empty d.say); ended_by = limit }
      else record {
        steps = step;
        answered = not (is_empty d.say);
        ended_by = if is_empty d.say then invalid else answer;
      }

  abbrev pub must_repair : (last repaired : Bool) → Decoded → Bool
  must_repair last repaired d = not (is_empty d.problems) && not repaired && not last

  -- What the step comes to: the turn's end, or another step.
  pub data Next : Type 0 where
    ends : TurnOutcome → List Said → Next
    goes_on : (repaired : Bool) → List Said → Next

  abbrev pub after_calls : (step : ℕ) → Bool → List Said → Option EndedBy → Next
  after_calls step repaired log none = goes_on repaired log
  after_calls step repaired log (some e) =
      ends (record { steps = step; answered = true; ended_by = e }) log

  -- One round of the loop of `turn`.
  abbrev pub round : (step : ℕ) → (repaired : Bool) → Decoded → List Said → Next
  round step repaired d log =
      let last = step == max_steps in
      let picked = chosen last d.calls in
      let said = log ++ agent_said step d.say picked (dropped last d.calls) ∷ [] in
      if is_empty picked
      then (if not (last && not (is_empty d.calls)) && must_repair last repaired d
          then goes_on true (said ++ event_said d.problems ∷ [])
          else ends (without_call step last d) said)
      else after_calls step repaired (said ++ map tool_result picked) (ending none picked)

  module _ (model : List Said → Decoded) where
    -- The rounds that are left, and the step that is next.
    unfoldable pub rounds :
        (left step : ℕ) → (repaired : Bool) → List Said → TurnOutcome × List Said
    rounds zero step repaired log =
        (record { steps = max_steps; answered = false; ended_by = limit }, log)
    rounds (suc left) step repaired log = elim (round step repaired (model log) log) [
      | ends outcome said ↦ (outcome, said)
      | goes_on again said ↦ rounds left (suc step) again said
    ]

    -- `turn`
    abbrev pub turn : List Said → TurnOutcome × List Said
    turn log = rounds max_steps 1 false log
