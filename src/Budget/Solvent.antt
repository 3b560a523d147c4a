-- ===== src/Budget/Solvent.antt =====
-- The budgets hold in every order of the workers' calls.
use code_analyzer.Prelude.{
  ℕ, zero, suc, ◌+◌, ◌≤◌, ◌≡◌, ◌||◌, Bool, refl, inl, inr, Option, none, some, List, [], ◌∷◌, ◌++◌,
  foldl, foldl_inv, ltb, get_elem?, Bool-cases, Option-cases, arith,
}
use code_analyzer.Prelude.Text.{codes, text_eq}
use code_analyzer.Budget.{
  Settings, Record, Phase, Refusal, estimate_of, reserve_estimate, reserve, unused, is_transport,
  back, release, observe, count_failure, settle, account, exceeds, prompt_overhead_tokens,
}
use code_analyzer.Budget.Calls.{
  Call, reserved, released, observed, accounted, Run, without_at, dispatch, finish, step, start,
}

module _ {D : Type 0} (positive : D → Bool) (s : Settings) where
  -- What the running sessions hold of the completion budget.
  pub held : List ℕ → ℕ
  held [] = 0
  held (e ∷ running) = s.max_completion_tokens + held running

  -- Neither budget is overspent, the sessions that run are paid for, and every token reserved so
  -- far is still spent or was given back.
  pub record IsSolvent (run : Run D) : Type 0 where
    prompt_within : run.phase.prompt_spent ≤ s.prompt_budget
    completion_within : run.phase.completion_reserved ≤ s.completion_budget
    covered : held run.running ≤ run.phase.completion_reserved
    prompt_kept : run.phase.prompt_spent + run.phase.refunded_prompt ≡ run.prompt_total
    completion_kept :
        run.phase.completion_reserved + run.phase.refunded_completion ≡ run.completion_total

  held-append :
      (running : List ℕ) (e : ℕ) → held (running ++ e ∷ []) ≡ held running + s.max_completion_tokens
  unfolding held
  held-append [] e = omega arith
  held-append (x ∷ running) e = omega (arith, held-append running e)

  held-without_at :
      (i e : ℕ) (running : List ℕ)
      → get_elem? running i ≡ some e
      → held (without_at i running) + s.max_completion_tokens ≡ held running
  unfolding held without_at
  held-without_at i e [] h = absurd (cc)
  held-without_at zero e (x ∷ running) h = omega arith
  held-without_at (suc i) e (x ∷ running) h = omega (arith, held-without_at i e running h)

  unused-le : (r : Record D) (cached : Bool) → unused s r cached ≤ s.max_completion_tokens
  unfolding unused
  unused-le r cached = ground arith

  back-le :
      (r : Record D) (estimate : ℕ) (cached : Bool) (spent : ℕ)
      → back r estimate cached spent ≤ spent
  unfolding back
  back-le r estimate cached spent = ground arith

  -- What a reservation changes.
  Reserves : Phase D → ℕ → Option Refusal × Phase D → Type 0
  Reserves st estimate (some why, st') = Unit
  Reserves st estimate (none, st') =
      (st'.prompt_spent ≡ st.prompt_spent + estimate)
      × ((st'.completion_reserved ≡ st.completion_reserved + s.max_completion_tokens)
          × ((st'.refunded_prompt ≡ st.refunded_prompt)
              × ((st'.refunded_completion ≡ st.refunded_completion)
                  × ((st'.prompt_spent ≤ s.prompt_budget)
                      × (st'.completion_reserved ≤ s.completion_budget)))))

  reserve_estimate-Reserves :
      (estimate : ℕ) (st : Phase D) → Reserves st estimate (reserve_estimate s estimate st)
  unfolding reserve_estimate Reserves
  reserve_estimate-Reserves estimate st =
      elim (Bool-cases (
        exceeds (estimate + prompt_overhead_tokens + s.max_completion_tokens)
          s.effective_context)) [
            | inl e ↦ rw (e, Reserves) tt
            | inr e ↦ elim (Bool-cases (ltb s.prompt_budget (st.prompt_spent + estimate))) [
              | inl e' ↦ rw (e, e', Reserves) tt
              | inr e' ↦
                  elim (Bool-cases
                    (ltb s.completion_budget (st.completion_reserved + s.max_completion_tokens))) [
                      | inl e'' ↦ rw (e, e', e'', Reserves) tt
                      | inr e'' ↦
                          rw (e, e', e'', Reserves)
                            (refl, (refl, (refl, (refl, (ground arith, ground arith)))))
                    ]
            ]
          ]

  dispatch-IsSolvent :
      (run : Run D) (estimate : ℕ) (result : Option Refusal × Phase D)
      → Reserves run.phase estimate result
      → IsSolvent run
      → IsSolvent (dispatch positive s run estimate result)
  unfolding Reserves dispatch
  dispatch-IsSolvent run estimate (some why, st) r h = h
  dispatch-IsSolvent run estimate (none, st) (p, (c, (rp, (rc, (bp, bc))))) h =
      let cover = h.covered in
      let prompt = h.prompt_kept in
      let completion = h.completion_kept in
      record {
        prompt_within = bp;
        completion_within = bc;
        covered = omega (arith, held-append run.running estimate);
        prompt_kept = omega arith;
        completion_kept = omega arith;
      }

  finish-IsSolvent :
      (run : Run D) (i : ℕ) (cached : Bool) (r : Record D) (o : Option ℕ)
      → get_elem? run.running i ≡ o
      → IsSolvent run
      → IsSolvent (finish positive s run i cached r o)
  unfolding finish release
  finish-IsSolvent run i cached r none e h = h
  finish-IsSolvent run i cached r (some estimate) e h =
      let prompt_in = h.prompt_within in
      let completion_in = h.completion_within in
      let cover = h.covered in
      let prompt = h.prompt_kept in
      let completion = h.completion_kept in
      let less = held-without_at i estimate run.running e in
      let given = unused-le r cached in
      let returned = back-le r estimate cached run.phase.prompt_spent in
      record {
        prompt_within = omega arith;
        completion_within = omega arith;
        covered = omega arith;
        prompt_kept = omega arith;
        completion_kept = omega arith;
      }

  -- The call leaves the budgets alone.
  abbrev Leaves : Phase D → Phase D → Type 0
  Leaves st st' =
      (st'.prompt_spent ≡ st.prompt_spent)
      × ((st'.completion_reserved ≡ st.completion_reserved)
          × ((st'.refunded_prompt ≡ st.refunded_prompt)
              × (st'.refunded_completion ≡ st.refunded_completion)))

  observe-Leaves :
      (r : Record D) (cached : Bool) (st : Phase D) → Leaves st (observe positive s r cached st)
  unfolding observe settle count_failure
  observe-Leaves r cached st = elim (Bool-cases (is_transport r cached)) [
    | inl e ↦ rw (e) (refl, (refl, (refl, refl)))
    | inr e ↦
        elim (Bool-cases
          (text_eq r.status (codes "completed") || text_eq r.status (codes "partial"))) [
            | inl e' ↦ rw (e, e') (refl, (refl, (refl, refl)))
            | inr e' ↦ rw (e, e') (refl, (refl, (refl, refl)))
          ]
  ]

  account-Leaves : (r : Record D) (st : Phase D) → Leaves st (account r st)
  unfolding account
  account-Leaves r st = elim (Option-cases r.usage) [
    | inl e ↦ rw (e) (refl, (refl, (refl, refl)))
    | inr (u, e) ↦ rw (e) (refl, (refl, (refl, refl)))
  ]

  left-IsSolvent :
      (run : Run D) (st : Phase D)
      → Leaves run.phase st
      → IsSolvent run
      → IsSolvent (record run { phase = st })
  left-IsSolvent run st (p, (c, (rp, rc))) h =
      let prompt_in = h.prompt_within in
      let completion_in = h.completion_within in
      let cover = h.covered in
      let prompt = h.prompt_kept in
      let completion = h.completion_kept in
      record {
        prompt_within = omega arith;
        completion_within = omega arith;
        covered = omega arith;
        prompt_kept = omega arith;
        completion_kept = omega arith;
      }

  step-IsSolvent : (run : Run D) (c : Call D) → IsSolvent run → IsSolvent (step positive s run c)
  unfolding step reserve
  step-IsSolvent run (reserved prompt) h =
      dispatch-IsSolvent run (estimate_of prompt) _
        (reserve_estimate-Reserves (estimate_of prompt) run.phase) h
  step-IsSolvent run (released i cached r) h =
      finish-IsSolvent run i cached r (get_elem? run.running i) refl h
  step-IsSolvent run (observed cached r) h =
      left-IsSolvent run _ (observe-Leaves r cached run.phase) h
  step-IsSolvent run (accounted r) h = left-IsSolvent run _ (account-Leaves r run.phase) h

  -- Whatever calls the workers of a phase make, in whatever order: neither budget is overspent,
  -- what the running sessions have reserved is still counted, so that no refund exceeds what is
  -- reserved, and what is spent and what was given back add up to what all sessions reserved.
  pub run-IsSolvent : (calls : List (Call D)) → IsSolvent (foldl (step positive s) start calls)
  unfolding start held
  run-IsSolvent calls = foldl_inv IsSolvent (step positive s) step-IsSolvent start calls (record {
    prompt_within = omega arith;
    completion_within = omega arith;
    covered = omega arith;
    prompt_kept = omega arith;
    completion_kept = omega arith;
  })
