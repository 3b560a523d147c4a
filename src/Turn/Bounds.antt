-- ===== src/Turn/Bounds.antt =====
-- How much a turn does: at most three model calls and one action.
use code_analyzer.Prelude.{
  ℕ, zero, suc, ◌+◌, ◌≤◌, ◌≡◌, refl, subst, Bool, true, false, ◌&&◌, not, Option, none, some, List,
  [], ◌∷◌, ◌++◌, map, ◌==◌, if◌then◌else◌, take, arith, Bool-cases, inl, inr,
}
use code_analyzer.Prelude.Text.{is_empty}
use code_analyzer.Turn.{
  max_steps, ToolCall, Decoded, EndedBy, TurnOutcome, Said, agent_said, event_said, tool_result,
  reads, actions, chosen, dropped, ending, without_call, must_repair, Next, ends, goes_on, approval,
  action, after_calls, round, rounds, turn,
}

-- The model calls that a turn has recorded.
abbrev pub count_said : List Said → ℕ
count_said [] = 0
count_said (agent_said step say c d ∷ log) = suc (count_said log)
count_said (event_said p ∷ log) = count_said log
count_said (tool_result c ∷ log) = count_said log

module _ (is_read : ToolCall → Bool) where
  -- The calls that ran and do more than read.
  abbrev pub count_actions : List Said → ℕ
  count_actions [] = 0
  count_actions (agent_said step say c d ∷ log) = count_actions log
  count_actions (event_said p ∷ log) = count_actions log
  count_actions (tool_result c ∷ log) = (if is_read c then 0 else 1) + count_actions log

  count_actions-append :
      (a b : List Said) → count_actions (a ++ b) ≡ count_actions a + count_actions b
  count_actions-append [] b = omega arith
  count_actions-append (agent_said step say c d ∷ a) b = count_actions-append a b
  count_actions-append (event_said p ∷ a) b = count_actions-append a b
  count_actions-append (tool_result c ∷ a) b = omega (arith, count_actions-append a b)

count_said-append : (a b : List Said) → count_said (a ++ b) ≡ count_said a + count_said b
count_said-append [] b = omega arith
count_said-append (agent_said step say c d ∷ a) b = omega (arith, count_said-append a b)
count_said-append (event_said p ∷ a) b = count_said-append a b
count_said-append (tool_result c ∷ a) b = count_said-append a b

count_said-results : (calls : List ToolCall) → count_said (map tool_result calls) ≡ 0
count_said-results [] = refl
count_said-results (c ∷ calls) = count_said-results calls

module _ (is_read asks : ToolCall → Bool) where
  reads-count :
      (calls : List ToolCall)
      → count_actions is_read (map tool_result (reads is_read asks calls)) ≡ 0
  reads-count [] = refl
  reads-count (c ∷ calls) = elim (Bool-cases (is_read c)) [
    | inl e ↦ rw (e, e) (omega (arith, reads-count calls))
    | inr e ↦ rw e (reads-count calls)
  ]

  picked-count :
      (front : List ToolCall) (rest : List ToolCall)
      → count_actions is_read (map tool_result front) ≡ 0
      → count_actions is_read (map tool_result (front ++ take 1 rest)) ≤ 1
  picked-count [] [] h = omega arith
  picked-count [] (c ∷ rest) h = ground arith
  picked-count (c ∷ front) rest h = omega (arith, h, picked-count front rest (omega (arith, h)))

  -- At most one of the calls that a step picks does more than read.
  chosen-count :
      (last : Bool) (calls : List ToolCall)
      → count_actions is_read (map tool_result (chosen is_read asks last calls)) ≤ 1
  chosen-count true calls = omega arith
  chosen-count false calls =
      picked-count (reads is_read asks calls) (actions is_read asks calls) (reads-count calls)

  ending-some :
      (e : EndedBy) (calls : List ToolCall) → ending is_read asks (some e) calls ≡ none → ⊥
  ending-some e [] h = cc
  ending-some e (c ∷ calls) h = elim (Bool-cases (is_read c)) [
    | inl q ↦ ending-some e calls (
        subst
          (λ b.
            ending is_read asks (if b then some e else some (if asks c then approval else action))
              calls
            ≡ none)
          q h)
    | inr q ↦ ending-some (if asks c then approval else action) calls (
        subst
          (λ b.
            ending is_read asks (if b then some e else some (if asks c then approval else action))
              calls
            ≡ none)
          q h)
  ]

  ending-none :
      (calls : List ToolCall)
      → ending is_read asks none calls ≡ none
      → count_actions is_read (map tool_result calls) ≡ 0
  ending-none [] h = refl
  ending-none (c ∷ calls) h = elim (Bool-cases (is_read c)) [
    | inl q ↦ rw q (
        omega (
          arith,
          ending-none calls (
              subst
                (λ b.
                  ending is_read asks
                    (if b then none else some (if asks c then approval else action)) calls
                  ≡ none)
                q h),
        ))
    | inr q ↦ absurd (
        ending-some (if asks c then approval else action) calls (
          subst
            (λ b.
              ending is_read asks (if b then none else some (if asks c then approval else action))
                calls
              ≡ none)
            q h))
  ]

  -- What a round adds: one model call, and an action only where it ends the turn.
  abbrev NextOk : List Said → Next is_read asks → Type 0
  NextOk log (ends outcome said) =
      (outcome.steps ≤ max_steps)
      × (count_said said ≤ suc (count_said log))
      × (count_actions is_read said ≤ suc (count_actions is_read log))
  NextOk log (goes_on again said) =
      (count_said said ≤ suc (count_said log))
      × (count_actions is_read said ≤ count_actions is_read log)

  calls-NextOk :
      (step : ℕ) (repaired : Bool) (log said : List Said) (picked : List ToolCall)
      (o : Option EndedBy)
      → step ≤ max_steps
      → ending is_read asks none picked ≡ o
      → count_said said ≡ suc (count_said log)
      → count_actions is_read said ≡ count_actions is_read log
      → count_actions is_read (map tool_result picked) ≤ 1
      → NextOk log (after_calls is_read asks step repaired (said ++ map tool_result picked) o)
  calls-NextOk step repaired log said picked none h e s a p = (
    omega (arith, count_said-append said (map tool_result picked), count_said-results picked, s),
    omega (
      arith,
      count_actions-append is_read said (map tool_result picked),
      ending-none picked e,
      a,
    ),
  )
  calls-NextOk step repaired log said picked (some q) h e s a p = (
    h,
    omega (arith, count_said-append said (map tool_result picked), count_said-results picked, s),
    omega (arith, count_actions-append is_read said (map tool_result picked), p, a),
  )

  without_call-steps :
      (step : ℕ) (last : Bool) (d : Decoded)
      → step ≤ max_steps
      → (without_call is_read asks step last d).steps ≤ max_steps
  without_call-steps step last d h = elim (Bool-cases (last && not (is_empty d.calls))) [
    | inl e ↦ rw e h
    | inr e ↦ rw e h
  ]

  idle-NextOk :
      (step : ℕ) (d : Decoded) (log said : List Said) (last repair : Bool)
      → step ≤ max_steps
      → count_said said ≡ suc (count_said log)
      → count_actions is_read said ≡ count_actions is_read log
      → NextOk log (
          if repair
          then goes_on true (said ++ event_said d.problems ∷ [])
          else ends (without_call is_read asks step last d) said)
  idle-NextOk step d log said last true h s a = (
    omega (arith, s, count_said-append said (event_said d.problems ∷ [])),
    omega (arith, a, count_actions-append is_read said (event_said d.problems ∷ [])),
  )
  idle-NextOk step d log said last false h s a =
      (without_call-steps step last d h, omega (arith, s), omega (arith, a))

  round-NextOk :
      (step : ℕ) (repaired : Bool) (d : Decoded) (log : List Said)
      → step ≤ max_steps
      → NextOk log (round is_read asks step repaired d log)
  round-NextOk step repaired d log h =
      let last = step == max_steps in
      let picked = chosen is_read asks last d.calls in
      let entry = agent_said step d.say picked (dropped is_read asks last d.calls) ∷ [] in
      let s : count_said (log ++ entry) ≡ suc (count_said log) =
        omega (arith, count_said-append log entry) in
      let a : count_actions is_read (log ++ entry) ≡ count_actions is_read log =
        omega (arith, count_actions-append is_read log entry) in
      elim (Bool-cases (is_empty picked)) [
        | inl e ↦ rw e (
            idle-NextOk step d log (log ++ entry) last
              (not (last && not (is_empty d.calls)) && must_repair is_read asks last repaired d) h s
              a)
        | inr e ↦ rw e (
            calls-NextOk step repaired log (log ++ entry) picked (ending is_read asks none picked) h
              refl s a (chosen-count last d.calls))
      ]

  -- What a turn may add to the records.
  abbrev pub IsBrief : ℕ → List Said → TurnOutcome × List Said → Type 0
  IsBrief left log r =
      (r.0.steps ≤ max_steps)
      × (count_said r.1 ≤ count_said log + left)
      × (count_actions is_read r.1 ≤ suc (count_actions is_read log))

  next-IsBrief :
      (left : ℕ) (log : List Said) (next : Next is_read asks)
      (later : Bool → List Said → TurnOutcome × List Said)
      → NextOk log next
      → ((again : Bool) (said : List Said) → IsBrief left said (later again said))
      → IsBrief (suc left) log (elim next [
        | ends outcome said ↦ (outcome, said)
        | goes_on again said ↦ later again said
      ])
  next-IsBrief left log (ends outcome said) later h k = (h.0, omega (arith, h.1), h.2)
  next-IsBrief left log (goes_on again said) later h k =
      let (a, b, c) = k again said in (a, omega (arith, b, h.0), omega (arith, c, h.1))

  module _ (model : List Said → Decoded) where
    rounds-IsBrief :
        (left step : ℕ) (repaired : Bool) (log : List Said)
        → step + left ≤ 4
        → IsBrief left log (rounds is_read asks model left step repaired log)
    unfolding rounds
    rounds-IsBrief zero step repaired log h = (omega arith, omega arith, omega arith)
    rounds-IsBrief (suc left) step repaired log h =
        next-IsBrief left log (round is_read asks step repaired (model log) log)
          (rounds is_read asks model left (suc step))
          (round-NextOk step repaired (model log) log (omega (arith, h)))
          (λ again said. rounds-IsBrief left (suc step) again said (omega (arith, h)))

    -- Whatever the model replies, a turn ends, with at most three model calls, and executes at most
    -- one call that does more than read.
    pub turn-IsBrief : (log : List Said) → IsBrief 3 log (turn is_read asks model log)
    turn-IsBrief log = rounds-IsBrief 3 1 false log (omega arith)
