-- ===== src/Control/Decisions.antt =====
-- The decisions of `RunControl`, code_analyzer/control.py. `request_decision` blocks: it is its
-- first part, `ask`, and then a look at the record each time that the waiting thread wakes.
use code_analyzer.Prelude.{
  ◌+◌, Bool, true, false, ◌||◌, Option, none, some, List, [], ◌∷◌, ◌++◌, if◌then◌else◌,
}
use code_analyzer.Prelude.Text.{Text, text_eq, codes, decimal}
use code_analyzer.Control.{
  Control, Request, Decision, Pending, Answer, apply, reject, unknown_answer, requested, decided,
  expired, Result, ok, value_error, announce, lookup, insert, without,
}

-- `_announce_decision`
unfoldable pub announce_decision : Request → Decision → Control → Control
announce_decision r d = announce (decided r d)

-- `request_decision` up to the wait, for a control that has no decider
unfoldable pub ask : Request → Control → Control
ask r c =
    let c' = announce (requested r) c in
    record c' { pending = insert r.id (record { request = r; decision = none }) c'.pending }

-- `request_decision` with a decider, which answers at once
unfoldable pub ask_decider : (Request → Decision) → Request → Control → Decision × Control
ask_decider decider r c = let d = decider r in (d, announce_decision r d (announce (requested r) c))

abbrev pub rejected_by : Text → Text → Decision
rejected_by by note = record { answer = reject; selected = []; decided_by = by; note = note }

-- `decision.decided_by in {"run", "timeout"}`
abbrev is_own_word : Text → Bool
is_own_word by = text_eq by (codes "run") || text_eq by (codes "timeout")

-- `request_decision` behind the wait
unfoldable pub settle : Request → Decision → Control → Control
settle r d c =
    let c' = record c { pending = without r.id c.pending } in
    if is_own_word d.decided_by then announce_decision r d c' else c'

-- The wait ends with a decision.
abbrev settled : Request → Decision → Control → Option (Decision × Control)
settled r d c = some (d, settle r d c)

-- The entry under the request's id: `pending = self._pending.get(request.id)`.
unfoldable pub look_at : Request → Bool → Control → Option Pending → Option (Decision × Control)
look_at r late c none = settled r (rejected_by (codes "run") (codes "no decision")) c
look_at r late c (some p) = elim p.decision [
  | some d ↦ settled r d c
  | none ↦
      if c.cancelled
      then settled r (rejected_by (codes "run") (codes "run cancelled")) c
      else if late
      then settled r (rejected_by (codes "timeout") (codes "timeout")) (announce (expired r.id) c)
      else none
]

-- One look of the loop of `request_decision`; `none` waits on. `late` says that the deadline has
-- passed.
unfoldable pub look : Request → Bool → Control → Option (Decision × Control)
unfolding look_at
look r late c = look_at r late c (lookup r.id c.pending)

-- `Decision.__post_init__`
abbrev pub is_answer : Answer → Bool
is_answer (unknown_answer _) = false
is_answer _ = true

-- `decide` under its lock: the answer is stored, and the request comes back that `decide` then
-- announces it for. A waiting thread may return the decision before that.
abbrev pub decide_on : Text → Decision → Control → Option Pending → Option Request × Control
decide_on id d c none = (none, c)
decide_on id d c (some p) =
    (some p.request, record c { pending = insert id (record p { decision = some d }) c.pending })

unfoldable pub decide : Text → Decision → Control → Result (Option Request × Control)
decide id d c =
    if is_answer d.answer then ok (decide_on id d c (lookup id c.pending)) else value_error

-- `decide` behind its lock, with what it returns.
unfoldable pub announce_stored : Option Request → Decision → Control → Bool × Control
announce_stored none d c = (false, c)
announce_stored (some r) d c = (true, announce_decision r d c)

-- `pending`
pub waiting_requests : List (Text × Pending) → List Request
waiting_requests [] = []
waiting_requests ((id, p) ∷ rest) = elim p.decision [
  | none ↦ p.request ∷ waiting_requests rest
  | some _ ↦ waiting_requests rest
]

-- `new_request_id`
unfoldable pub new_request_id : Text → Control → Text × Control
new_request_id prefix c = (prefix ++ decimal c.next_id, record c { next_id = c.next_id + 1 })

-- `auto_decide`
unfoldable pub auto_decide : Request → Decision → Control → Decision × Control
auto_decide r d c = (d, announce_decision r d (announce (requested r) c))

-- `auto_no` and `auto_yes`, the deciders of a run without a screen
unfoldable pub auto_no : Request → Decision
auto_no r = rejected_by (codes "policy") (codes "non-interactive run without --build-assist-yes")

unfoldable pub auto_yes : Request → Decision
auto_yes r = record {
  answer = apply;
  selected = r.preselected;
  decided_by = codes "cli --build-assist-yes";
  note = [];
}
