-- ===== src/Budget/Breaker.antt =====
-- The circuit breaker opens on failures in a row, and stays open.
use code_analyzer.Prelude.{
  ℕ, ◌+◌, ◌≡◌, Bool, true, false, not, ◌&&◌, ◌||◌, if◌then◌else◌, List, [], ◌∷◌, arith,
}
use code_analyzer.Prelude.Text.{Text, codes, text_eq}
use code_analyzer.Budget.{Settings, Record, Phase, is_open, count_failure, settle, observe}
use code_analyzer.Budget.Calls.{Call, observed, Run}

module _ {D : Type 0} (positive : D → Bool) (s : Settings) where
  -- Nothing closes the breaker.
  pub observe-open :
      (r : Record D) (cached : Bool) (st : Phase D)
      → is_open st.breaker_open ≡ true
      → is_open (observe positive s r cached st).breaker_open ≡ true
  unfolding observe settle count_failure
  observe-open r cached st h = ground (arith, h)

  abbrev IsOpen : Run D → Type 0
  IsOpen run = is_open run.phase.breaker_open ≡ true

  -- The call observes a transport failure of a session that was not replayed.
  abbrev pub is_failure : Call D → Bool
  is_failure (observed cached r) = not cached && text_eq r.failure_class (codes "transport")
  is_failure _ = false

  -- The call observes a session that ended well.
  abbrev pub is_success : Call D → Bool
  is_success (observed cached r) =
      not (not cached && text_eq r.failure_class (codes "transport"))
      && (text_eq r.status (codes "completed") || text_eq r.status (codes "partial"))
  is_success _ = false

  abbrev pub NoSuccess : Call D → Type 0
  NoSuccess c = is_success c ≡ false

  abbrev pub one_if : Bool → ℕ
  one_if b = if b then 1 else 0

  abbrev pub count_failures : List (Call D) → ℕ
  count_failures [] = 0
  count_failures (c ∷ calls) = one_if (is_failure c) + count_failures calls
