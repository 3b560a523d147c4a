-- ===== src/Control/Checkpoint.antt =====
-- `checkpoint` of `RunControl`, code_analyzer/control.py: the call of the producers.
use code_analyzer.Prelude.{
  Bool, true, ◌&&◌, not, Option, none, some, List, [], ◌∷◌, if◌then◌else◌, ◌≡◌, refl, Bool-cases,
  inl, inr, All,
}
use code_analyzer.Prelude.Text.{Text}
use code_analyzer.Control.{Control, Lane, is_paused, has_name, has_unit}

-- What a checkpoint may answer.
pub data Word : Type 0 where
  run skip_unit skip_producer cancelled : Word

abbrev unit_word : Text → Option Text → Control → Word
unit_word producer none c = run
unit_word producer (some unit) c = if has_unit producer unit c.unit_skips then skip_unit else run

-- The answer behind the wait.
unfoldable pub word_at : Lane → Text → Option Text → Control → Word
word_at lane producer unit c =
    if c.cancelled
    then cancelled
    else if has_name producer c.skips
    then skip_producer
    else unit_word producer unit c

-- The test of the wait.
unfoldable pub must_wait : Lane → Control → Bool
must_wait lane c = is_paused lane c && not c.cancelled

-- One look of the waiting thread; `none` waits on.
unfoldable pub look_once : Lane → Text → Option Text → Control → Option Word
look_once lane producer unit c =
    if must_wait lane c then none else some (word_at lane producer unit c)

abbrev or_later : Option Word → Option Word → Option Word
or_later (some w) later = some w
or_later none later = later

-- `checkpoint` over the records that the thread finds each time that it wakes.
unfoldable pub checkpoint : Lane → Text → Option Text → List Control → Option Word
unfolding look_once
checkpoint lane producer unit [] = none
checkpoint lane producer unit (c ∷ later) =
    or_later (look_once lane producer unit c) (checkpoint lane producer unit later)

-- The thread waits as long as it is to, and no longer: there is no answer exactly when at every
-- look the lane was paused and the run not cancelled.
pub checkpoint-none :
    (lane : Lane) (producer : Text) (unit : Option Text) (looks : List Control)
    → (checkpoint lane producer unit looks ≡ none → All (λ c. must_wait lane c ≡ true) looks)
      × (All (λ c. must_wait lane c ≡ true) looks → checkpoint lane producer unit looks ≡ none)
unfolding checkpoint
checkpoint-none lane producer unit [] = (λ e. tt, λ h. refl)
checkpoint-none lane producer unit (c ∷ later) =
    let (to, from) = checkpoint-none lane producer unit later in
    elim (Bool-cases (must_wait lane c)) [
      | inl w ↦ rw w (λ e. (refl, to e), λ h. from h.1)
      | inr w ↦ rw w (λ e. absurd (cc), λ h. absurd (cc))
    ]
